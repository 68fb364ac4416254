-- ===== src/Protocol/Cobs/Tests.antt =====
-- Runs of the codec, and the claims at concrete data.
use wiredesk.Base.{◌≡◌, refl, [], ◌∷◌, ◌++◌, All, arith}
use wiredesk.Base.Bytes.{Bytes}
use wiredesk.Base.Result.{ok, err}
use wiredesk.Protocol.Cobs.{encode, decode, unexpected_zero, truncated}
use wiredesk.Protocol.Cobs.Stuffed.{stuffed, encode-stuffed}
use wiredesk.Protocol.Cobs.RoundTrip.{decode-encode}
use wiredesk.Protocol.Cobs.Size.{IsStuffing, encode-IsStuffing}

abbrev sample : Bytes
sample = 0 ∷ 1 ∷ 0 ∷ 2 ∷ 0 ∷ []

encode-sample : encode sample ≡ 1 ∷ 2 ∷ 1 ∷ 2 ∷ 2 ∷ 1 ∷ 0 ∷ []
unfolding encode
encode-sample = refl

decode-truncated : decode (5 ∷ 1 ∷ 2 ∷ []) ≡ err truncated
unfolding decode
decode-truncated = refl

decode-zero : decode (3 ∷ 1 ∷ 0 ∷ 2 ∷ []) ≡ err (unexpected_zero 2)
unfolding decode
decode-zero = refl

decode-encode_example : decode (encode sample) ≡ ok sample
decode-encode_example = decode-encode sample

encode-IsStuffing_example :
    (frame : Bytes) × (encode sample ≡ frame ++ 0 ∷ []) × All IsStuffing frame
encode-IsStuffing_example = encode-IsStuffing sample (omega arith)

encode-stuffed_example : encode sample ≡ stuffed [] sample ++ 0 ∷ []
encode-stuffed_example = encode-stuffed sample
