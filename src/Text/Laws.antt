-- ===== src/Text/Laws.antt =====
-- What a reader of the strings of utils.rs sees.
use ksync.Mutex.Lifecycle.{Lived}
use ksync.Base.{
  true, false, Bool, ℕ, zero, suc, ◌+◌, ◌-◌, ◌*◌, ◌/◌, ◌%◌, ◌^◌, ◌≤◌, ◌<◌, ◌≡◌, ◌≢◌, refl, ◌⊎◌, ltb,
  ◌==◌, ◌&&◌, leb, if◌then◌else◌, null, Option, none, some, List, [], ◌∷◌, length, arith,
  Bool-cases, inl, inr, ap, ◌∙◌,
}
use ksync.Kernel.{Kernel, Log, M, pure, Returns, ◌>>=◌, ◌>>◌}
use ksync.Kernel.Abi.{ex_allocate_pool}
use ksync.Utils.{paged_pool}
use ksync.Text.{
  encode_utf16, UnicodeString, unicode_from_str, dealloc, allocate, size_of_unicode_string,
  rust_paged_tag,
}

-- The scalar values: no surrogates, and at most 0x10ffff.
abbrev pub IsText : List ℕ → Type 0
IsText [] = Unit
IsText (c ∷ s) = ((c < 0xd800) ⊎ ((0xe000 ≤ c) × (c < 0x11_0000))) × IsText s

-- A reader of UTF-16: `high` is a high surrogate that waits for its low one.
decode_from : Option ℕ → List ℕ → List ℕ
decode_from h [] = []
decode_from none (u ∷ us) =
    let pair = decode_from (some u) us in
    let rest = decode_from none us in if leb 0xd800 u && ltb u 0xdc00 then pair else u ∷ rest
decode_from (some h) (u ∷ us) =
    (0x1_0000 + (h - 0xd800) * 0x400 + (u - 0xdc00)) ∷ decode_from none us

unfoldable pub decode_utf16 : List ℕ → List ℕ
unfolding decode_from
decode_utf16 us = decode_from none us

abbrev pub take : ℕ → List ℕ → List ℕ
take zero xs = []
take (suc n) [] = []
take (suc n) (x ∷ xs) = x ∷ take n xs

decode-encode : (s : List ℕ) → IsText s → decode_utf16 (encode_utf16 s) ≡ s
unfolding decode_utf16 encode_utf16
decode-encode [] h = refl
decode-encode (c ∷ s) (scalar, rest) = ground (arith, decode-encode s rest)

take-all : (n : ℕ) (xs : List ℕ) → length xs ≡ n → take n xs ≡ xs
take-all zero [] h = refl
take-all zero (x ∷ xs) h = absurd (omega arith)
take-all (suc n) [] h = refl
take-all (suc n) (x ∷ xs) h = ap (λ t. x ∷ t) (take-all n xs (omega arith))

-- What a kernel routine reads through the header: the counted units.
unfoldable pub view : UnicodeString → List ℕ
view u = take (u.byte_length / 2) u.units

-- The pool's answer to the request for the header and the code units of `s`.
abbrev pub block_for : List ℕ → Kernel → Log → ℕ
block_for s k l =
    (k l (ex_allocate_pool paged_pool (length (encode_utf16 s) * 2 + 16) rust_paged_tag)).ret

abbrev pub Reads : List ℕ → (block : ℕ) → Option UnicodeString → Log → Type 0
Reads s block none l = block ≡ null
Reads s block (some u) l =
    (u.header ≡ block)
    × (block ≢ null)
    × (decode_utf16 (view u) ≡ s)
    × (u.byte_length ≡ u.maximum_length)
    × (u.buffer ≡ u.header + size_of_unicode_string)

-- For a text of scalar values with fewer than 2^15 code units, `unicode_from_str` returns nothing exactly
-- when the pool answered null, and otherwise a string in the block that it answered, in which the
-- counted units decode to the text, both lengths are equal, and the buffer follows the header.
pub unicode_from_str-Reads :
    (s : List ℕ) (k : Kernel) (l : Log)
    → IsText s
    → length (encode_utf16 s) < 2 ^ 15
    → Returns (unicode_from_str s k l) (Reads s (block_for s k l))
unfolding unicode_from_str view
unicode_from_str-Reads s k l text short =
    let n = length (encode_utf16 s) in
    let half : n * 2 % 2 ^ 16 / 2 ≡ n = omega arith in
    let whole : take (n * 2 % 2 ^ 16 / 2) (encode_utf16 s) ≡ encode_utf16 s =
      rw half (take-all n (encode_utf16 s) refl) in
    elim (Bool-cases
      ((k l (ex_allocate_pool paged_pool (n * 2 + 16) rust_paged_tag)).ret == null)) [
        | inl full ↦ rw (full, full) (ground (arith, full))
        | inr room ↦
            rw (room, room)
              (refl, ground (arith, room), ap decode_utf16 whole ∙ decode-encode s text, refl, refl)
      ]

-- The reader sees the first `n` of the code units.
abbrev pub Cut : ℕ → List ℕ → (block : ℕ) → Option UnicodeString → Type 0
Cut n units block none = block ≡ null
Cut n units block (some u) = (block ≢ null) × (view u ≡ take n units)

-- For every text, also one that is too long for the 16-bit length: where the pool answers a block, a
-- string is returned of which a reader sees the first `n % 2^15` of the text's `n` code units, so the
-- text is cut off without an error from 2^15 units on; where it answers null, nothing is returned.
pub unicode_from_str_truncates :
    (s : List ℕ) (k : Kernel) (l : Log)
    → Returns
        (unicode_from_str s k l)
        λ r l'. Cut (length (encode_utf16 s) % 2 ^ 15) (encode_utf16 s) (block_for s k l) r
unfolding unicode_from_str view
unicode_from_str_truncates s k l =
    let n = length (encode_utf16 s) in
    let half : n * 2 % 2 ^ 16 / 2 ≡ n % 2 ^ 15 = omega arith in
    elim (Bool-cases
      ((k l (ex_allocate_pool paged_pool (n * 2 + 16) rust_paged_tag)).ret == null)) [
        | inl full ↦ rw (full, full) (ground (arith, full))
        | inr room ↦ rw (room, room) (ground (arith, room), rw half refl)
      ]

-- A text is copied, and its block is returned through the allocator that it came from.
unfoldable pub text_life : List ℕ → M Bool
unfolding unicode_from_str dealloc
text_life s = do
  r ← unicode_from_str s
  elim r [ none ↦ pure false | some u ↦ (do dealloc u.header; pure true) ]

-- One block comes and goes, or there was none.
pub text_life-Lived :
    (s : List ℕ) (k : Kernel) (l : Log) → Returns (text_life s k l) (λ made. Lived made l)
unfolding text_life allocate
text_life-Lived s k l = ground arith
