-- ===== src/Python/Text.antt =====
-- A `str` is the list of its code points. `str.encode` and `bytes.decode` are strict UTF-8: a
-- surrogate is refused when it is encoded, and any ill-formed sequence when it is decoded.
use suplalite.Common.{
  ℕ, zero, suc, ◌+◌, ◌-◌, ◌*◌, ◌/◌, ◌%◌, ◌≤◌, ◌<◌, ◌≡◌, refl, Bool, true, ◌&&◌, List, [], ◌∷◌, ◌++◌,
  arith, ltb, leb, ◌==◌, if◌then◌else◌, length, All, length-append, ap, All-append,
}
use suplalite.Python.Result.{Result, ok, err, unicode_error, ◌>>=◌}
use suplalite.Python.Bytes.{Bytes}

abbrev pub Str : Type 0
Str = List ℕ

-- The code points that UTF-8 encodes.
abbrev pub is_scalar : ℕ → Bool
is_scalar c = if ltb c 0xd800 then true else (leb 0xe000 c && ltb c 0x11_0000)

unfoldable pub char_bytes : ℕ → Bytes
char_bytes c =
    if ltb c 0x80
    then c ∷ []
    else if ltb c 0x800
    then (0xc0 + c / 64) ∷ (0x80 + c % 64) ∷ []
    else if ltb c 0x1_0000
    then (0xe0 + c / 4096) ∷ (0x80 + c / 64 % 64) ∷ (0x80 + c % 64) ∷ []
    else (0xf0 + c / 262144) ∷ (0x80 + c / 4096 % 64) ∷ (0x80 + c / 64 % 64) ∷ (0x80 + c % 64) ∷ []

-- `s.encode("utf-8")`
unfoldable pub utf8 : Str → Result Bytes
utf8 [] = ok []
utf8 (c ∷ s) = do bs ← utf8 s; if is_scalar c then ok (char_bytes c ++ bs) else err unicode_error

-- What the next byte may be: `left` bytes are due, the next between `lo` and `hi`.
pub data State : Type 0 where
  start : State
  due : (left acc lo hi : ℕ) → State

pub data Step : Type 0 where
  emit : ℕ → Step
  more : State → Step
  bad : Step

-- The lead byte decides the length; the bounds of the second byte rule out what is overlong, a
-- surrogate, or above U+10FFFF.
lead : ℕ → Step
lead b =
    if ltb b 0x80
    then emit b
    else if ltb b 0xc2
    then bad
    else if ltb b 0xe0
    then more (due 0 (b - 0xc0) 0x80 0xbf)
    else if ltb b 0xf0
    then more
        (due 1 (b - 0xe0) (if b == 0xe0 then 0xa0 else 0x80) (if b == 0xed then 0x9f else 0xbf))
    else if ltb b 0xf5
    then more
        (due 2 (b - 0xf0) (if b == 0xf0 then 0x90 else 0x80) (if b == 0xf4 then 0x8f else 0xbf))
    else bad

follow : (left acc lo hi : ℕ) → ℕ → Step
follow zero acc lo hi b = if leb lo b && leb b hi then emit (acc * 64 + (b - 0x80)) else bad
follow (suc left) acc lo hi b =
    if leb lo b && leb b hi then more (due left (acc * 64 + (b - 0x80)) 0x80 0xbf) else bad

step : State → ℕ → Step
unfolding lead follow
step start b = lead b
step (due left acc lo hi) b = follow left acc lo hi b

decode_from : State → Bytes → Result Str
unfolding step
decode_from start [] = ok []
decode_from (due _ _ _ _) [] = err unicode_error
decode_from s (b ∷ bs) = elim (step s b) [
  | emit c ↦ do r ← decode_from start bs; ok (c ∷ r)
  | more s' ↦ decode_from s' bs
  | bad ↦ err unicode_error
]

-- `data.decode("utf-8")`
unfoldable pub utf8_decode : Bytes → Result Str
unfolding decode_from
utf8_decode = decode_from start

decode_from-char_bytes :
    (c : ℕ) (rest : Bytes)
    → is_scalar c ≡ true
    → decode_from start (char_bytes c ++ rest) ≡ (decode_from start rest >>= λ r. ok (c ∷ r))
unfolding decode_from char_bytes
decode_from-char_bytes c rest h = ground arith

pub utf8-cons :
    (c : ℕ) (s : Str) (bs : Bytes)
    → utf8 (c ∷ s) ≡ ok bs
    → (t : Bytes) × (utf8 s ≡ ok t) × (is_scalar c ≡ true) × (bs ≡ char_bytes c ++ t)
unfolding utf8
utf8-cons c s bs h = ground arith

-- What is encoded decodes back.
pub utf8_decode-utf8 : (s : Str) (bs : Bytes) → utf8 s ≡ ok bs → utf8_decode bs ≡ ok s
unfolding utf8_decode
utf8_decode-utf8 [] bs h = unfold utf8 in ground arith
utf8_decode-utf8 (c ∷ s) bs h =
    let (t, p, ok_c, e) = utf8-cons c s bs h in
    rw (e, decode_from-char_bytes c t ok_c, utf8_decode-utf8 s t p)

-- An ASCII text is its own encoding.
abbrev pub IsAscii : Str → Type 0
IsAscii = All (λ c. c < 0x80)

pub utf8_ascii : (s : Str) → IsAscii s → utf8 s ≡ ok s
unfolding utf8 char_bytes
utf8_ascii [] h = refl
utf8_ascii (c ∷ s) h = ground (arith, utf8_ascii s h.1)

char_bytes_pos : (c : ℕ) → 0 < length (char_bytes c)
unfolding char_bytes
char_bytes_pos c = ground arith

char_bytes_long : (c : ℕ) → 0x80 ≤ c → 1 < length (char_bytes c)
unfolding char_bytes
char_bytes_long c h = ground arith

-- A text is at most as long as its encoding.
pub length-utf8 : (s : Str) (bs : Bytes) → utf8 s ≡ ok bs → length s ≤ length bs
length-utf8 [] bs h = omega arith
length-utf8 (c ∷ s) bs h =
    let (t, p, ok_c, e) = utf8-cons c s bs h in
    omega (arith, ap length e, length-append (char_bytes c) t, char_bytes_pos c, length-utf8 s t p)

char_bytes_ne_nul : (c : ℕ) → 0 < c → All (λ b. 0 < b) (char_bytes c)
unfolding char_bytes
char_bytes_ne_nul c h = ground arith

-- A text with no NUL has no zero byte in its encoding.
pub utf8_ne_nul : (s : Str) (bs : Bytes) → utf8 s ≡ ok bs → All (λ c. 0 < c) s → All (λ b. 0 < b) bs
utf8_ne_nul [] bs h p = unfold utf8 in ground arith
utf8_ne_nul (c ∷ s) bs h p =
    let (t, q, ok_c, e) = utf8-cons c s bs h in
    rw e (All-append _ (char_bytes c) t (char_bytes_ne_nul c p.0) (utf8_ne_nul s t q p.1))
