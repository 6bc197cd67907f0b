-- ===== src/Blocks/Texts.antt =====
-- The text of content blocks as a join of texts.
use agentrun.Prelude.{
  ◌≡◌, refl, ap, ◌∙◌, sym, Str, bytes, str_eq, Bool, true, false, not, ◌&&◌, List, [], ◌∷◌, ◌++◌,
  if◌then◌else◌, is_empty, append-nil, Bool-cases, inl, inr,
}
use agentrun.Blocks.{ContentBlock, write_texts, text_from_blocks}

abbrev pub has_text : ContentBlock → Bool
has_text b = str_eq b.type (bytes "text") && not (is_empty b.text)

-- The texts of the text blocks that have one.
pub texts : List ContentBlock → List Str
texts [] = []
texts (b ∷ blocks) = let rest = texts blocks in if has_text b then b.text ∷ rest else rest

-- The texts after the first, each behind a newline.
pub later_lines : List Str → Str
later_lines [] = []
later_lines (t ∷ ts) = (10 ∷ t) ++ later_lines ts

-- strings.Join(ts, "\n")
pub join_lines : List Str → Str
unfolding later_lines
join_lines [] = []
join_lines (t ∷ ts) = t ++ later_lines ts

append_line : (w t l : Str) → ((w ++ 10 ∷ []) ++ t) ++ l ≡ w ++ ((10 ∷ t) ++ l)
append_line [] t l = refl
append_line (b ∷ w) t l = ap (λ s. b ∷ s) (append_line w t l)

write_texts-later :
    (blocks : List ContentBlock) (written : Str)
    → write_texts false blocks written ≡ written ++ later_lines (texts blocks)
unfolding write_texts texts later_lines
write_texts-later [] written = sym (append-nil written)
write_texts-later (b ∷ blocks) written = elim (Bool-cases (has_text b)) [
  | inl writes ↦ rw writes (
      write_texts-later blocks ((written ++ 10 ∷ []) ++ b.text)
      ∙ append_line written b.text (later_lines (texts blocks)))
  | inr skips ↦ rw skips (write_texts-later blocks written)
]

write_texts-join_lines :
    (blocks : List ContentBlock) → write_texts true blocks [] ≡ join_lines (texts blocks)
unfolding write_texts texts join_lines
write_texts-join_lines [] = refl
write_texts-join_lines (b ∷ blocks) = elim (Bool-cases (has_text b)) [
  | inl writes ↦ rw writes (write_texts-later blocks b.text)
  | inr skips ↦ rw skips (write_texts-join_lines blocks)
]

-- The text of content blocks is the join, with newlines, of the texts of all text blocks that have one.
pub text_from_blocks-join_lines :
    (blocks : List ContentBlock) → text_from_blocks blocks ≡ join_lines (texts blocks)
unfolding text_from_blocks
text_from_blocks-join_lines blocks = write_texts-join_lines blocks
