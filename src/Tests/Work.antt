-- ===== src/Tests/Work.antt =====
-- DPCs of dpc.rs, timers of timer.rs, work items of workitem.rs, strings of utils.rs.
use ksync.Base.{zero, suc, length, ◌%◌, ◌^◌, ℕ, arith, [], ◌∷◌, List, inl, inr}
use ksync.Kernel.{Returns}
use ksync.Dpc
use ksync.Dpc.Boxes
use ksync.Text
use ksync.Text.Laws
use ksync.Tests.Kernels.{standard}

-- "a" and an emoji.
abbrev text : List ℕ
text = 97 ∷ 0x1_f600 ∷ []

text-IsText : Laws.IsText text
text-IsText = (inl (omega arith), (inr (omega arith, omega arith), tt))

unicode_from_str-Reads_example :
    Returns (Text.unicode_from_str text standard []) (Laws.Reads text 4096)
unfolding Text.encode_utf16
unicode_from_str-Reads_example =
    Laws.unicode_from_str-Reads text standard [] text-IsText (omega arith)

-- The letter "a", `n` times.
unfoldable letters : ℕ → List ℕ
letters zero = []
letters (suc n) = 97 ∷ letters n

unicode_from_str_truncates_example :
    Returns (Text.unicode_from_str (letters 40_000) standard []) λ r l'.
      Laws.Cut
        (length (Text.encode_utf16 (letters 40_000)) % 2 ^ 15)
        (Text.encode_utf16 (letters 40_000))
        4096
        r
unicode_from_str_truncates_example = Laws.unicode_from_str_truncates (letters 40_000) standard []
