-- ===== src/Proto/RoundTrip.antt =====
-- Every message class of suplalite/proto.py can be read back.
use suplalite.Common.{
  ℕ, zero, suc, ◌≡◌, refl, Bool, true, ◌&&◌, &&-true, some, List, [], ◌∷◌, ◌++◌, get_elem?, length,
}
use suplalite.Common.Int.{pos}
use suplalite.Python.Result.{ok}
use suplalite.Python.Bytes.{Bytes}
use suplalite.Encoding.Schema.{Class}
use suplalite.Encoding.Value.{Attrs}
use suplalite.Encoding.Fields.{fields}
use suplalite.Encoding.Encode.{encode}
use suplalite.Encoding.Decode.{decode}
use suplalite.Encoding.WellFormed.{well_formed}
use suplalite.Encoding.Fits.{FitsMessage}
use suplalite.Encoding.RoundTrip.{decode-encode}
use suplalite.Proto.Messages.{messages}

all_well_formed : List Class → Bool
all_well_formed [] = true
all_well_formed (c ∷ cs) = well_formed (fields c) && all_well_formed cs

messages_checked : all_well_formed messages ≡ true
unfolding all_well_formed well_formed fields
messages_checked = refl

well_formed_at :
    (cs : List Class) (i : ℕ) (c : Class)
    → all_well_formed cs ≡ true
    → get_elem? cs i ≡ some c
    → well_formed (fields c) ≡ true
unfolding all_well_formed
well_formed_at [] i c h e = cc
well_formed_at (x ∷ cs) zero c h e =
    let e' : x ≡ c = cc in rw e' at ((&&-true (well_formed (fields x)) (all_well_formed cs) h).0)
well_formed_at (x ∷ cs) (suc i) c h e = well_formed_at cs i c (&&-true _ _ h).1 e

-- For each of the message classes of the protocol: a message whose values fit the class is encoded,
-- and its encoding, whatever follows it, decodes to the same message and to its end.
pub decode-encode-messages :
    (i : ℕ) (cls : Class) (msg : Attrs) (post : Bytes)
    → get_elem? messages i ≡ some cls
    → FitsMessage (fields cls) msg
    → (bs : Bytes) × (encode (fields cls) msg ≡ ok bs)
      × (decode (fields cls) (bs ++ post) ≡ ok (msg, pos (length bs)))
decode-encode-messages i cls msg post listed fit =
    decode-encode (fields cls) msg post (well_formed_at messages i cls messages_checked listed) fit
