-- ===== src/Text.antt =====
-- utils.rs: `unicode_from_str` and `utf16_from_str`. A `str` is the list of its scalar values.
pub mod Laws
use ksync.Base.{
  ℕ, ◌+◌, ◌-◌, ◌*◌, ◌/◌, ◌%◌, ◌^◌, ltb, ◌==◌, if◌then◌else◌, null, Option, none, some, List, [],
  ◌∷◌, length,
}
use ksync.Kernel.Abi.{ex_free_pool}
use ksync.Kernel.{M, pure, emit, ◌>>=◌}
use ksync.Utils.{ex_allocate_pool_zero, paged_pool}

-- `str::encode_utf16` of the standard library.
unfoldable pub encode_utf16 : List ℕ → List ℕ
encode_utf16 [] = []
encode_utf16 (c ∷ s) =
    if ltb c 0x1_0000
    then c ∷ encode_utf16 s
    else (0xd800 + (c - 0x1_0000) / 0x400) ∷ (0xdc00 + (c - 0x1_0000) % 0x400) ∷ encode_utf16 s

-- A `UNICODE_STRING` at `header`, and the code units that its `Buffer` points to.
pub record UnicodeString : Type 0 where
  pub header : ℕ
  pub byte_length : ℕ
  pub maximum_length : ℕ
  pub buffer : ℕ
  pub units : List ℕ

abbrev pub size_of_wchar : ℕ
size_of_wchar = 2

abbrev pub size_of_unicode_string : ℕ
size_of_unicode_string = 16

-- `u32::from_ne_bytes(*b"egap")`
abbrev pub rust_paged_tag : ℕ
rust_paged_tag = 0x7061_6765

-- `PagedAllocator::allocate`
unfoldable pub allocate : (size : ℕ) → M ℕ
unfolding ex_allocate_pool_zero
allocate size = ex_allocate_pool_zero paged_pool size rust_paged_tag

-- `PagedAllocator::dealloc`
unfoldable pub dealloc : (ptr : ℕ) → M (Unit {0})
dealloc ptr = emit (ex_free_pool ptr rust_paged_tag)

unfoldable pub unicode_from_str : List ℕ → M (Option UnicodeString)
unfolding allocate
unicode_from_str s = do
  let value = encode_utf16 s
  let char_size = length value * size_of_wchar
  buffer ← allocate (char_size + size_of_unicode_string)
  if buffer == null
      then pure none
      else pure (
          some (record {
            header = buffer;
            byte_length = char_size % 2 ^ 16;
            maximum_length = char_size % 2 ^ 16;
            buffer = buffer + size_of_unicode_string;
            units = value;
          }))

-- The pointer becomes a box.
unfoldable pub utf16_from_str : List ℕ → M (Option UnicodeString)
unfolding unicode_from_str
utf16_from_str s = unicode_from_str s
