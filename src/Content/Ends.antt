-- ===== src/Content/Ends.antt =====
-- content.py: texts that were written line by line, with any of the three ends of a line.
use my_ops.Prelude.{
  ℕ, ◌≤◌, ◌≡◌, refl, ap, ◌∙◌, Bool, true, false, inl, inr, some, List, [], ◌∷◌, ◌++◌, map, All,
  arith, contains, Bool-cases, ◌==◌, nat_eq, length, ltb, all, is_space,
}
use my_ops.Store.{SourceInput}
use my_ops.Content.{newline, return, translate, max_blocks, line_content, text_content}
use my_ops.Content.Lines.{
  unlines, IsLine, split_lines-unlines, block_text, IsNumbered, blocks_from-text,
  blocks_from-IsNumbered,
}

-- `\n`, `\r` or `\r\n`
pub data IsEnd : List ℕ → Type 0 where
  unix : IsEnd (newline ∷ [])
  mac : IsEnd (return ∷ [])
  windows : IsEnd (return ∷ newline ∷ [])

-- The lines, each with the end after it.
unfoldable pub written : List ℕ → List (List ℕ) → List ℕ
written end [] = []
written end (l ∷ ls) = l ++ (end ++ written end ls)

-- A line without an end of a line in it.
abbrev pub IsPlain : List ℕ → Type 0
IsPlain l = (contains l newline ≡ false) × (contains l return ≡ false)

translate-newline :
    (l t : List ℕ)
    → IsPlain l
    → translate false (l ++ newline ∷ t) ≡ l ++ newline ∷ translate false t
unfolding translate
translate-newline [] t h = refl
translate-newline (c ∷ l) t (n, r) = elim (Bool-cases (c == newline)) [
  | inl e ↦ cc (rw e at n)
  | inr e ↦ elim (Bool-cases (c == return)) [
    | inl e' ↦ cc (rw e' at r)
    | inr e' ↦ rw (e, e', translate-newline l t (rw e at n, rw e' at r)) refl
  ]
]

translate-return :
    (after : Bool) (l t : List ℕ)
    → IsPlain l
    → translate after (l ++ return ∷ t) ≡ l ++ newline ∷ translate true t
unfolding translate
translate-return after [] t h = refl
translate-return after (c ∷ l) t (n, r) = elim (Bool-cases (c == newline)) [
  | inl e ↦ cc (rw e at n)
  | inr e ↦ elim (Bool-cases (c == return)) [
    | inl e' ↦ cc (rw e' at r)
    | inr e' ↦ rw (e, e', translate-return false l t (rw e at n, rw e' at r)) refl
  ]
]

translate-skip : (t : List ℕ) → translate true (newline ∷ t) ≡ translate false t
unfolding translate
translate-skip t = refl

mac-unlines :
    (after : Bool) (ls : List (List ℕ))
    → All IsPlain ls
    → translate after (written (return ∷ []) ls) ≡ unlines ls
unfolding written unlines translate
mac-unlines after [] h = refl
mac-unlines after (l ∷ ls) h =
    translate-return after l (written (return ∷ []) ls) h.0
    ∙ ap (λ x. l ++ newline ∷ x) (mac-unlines true ls h.1)

-- Whatever the end, reading turns it into a newline.
written-unlines :
    {end : List ℕ} (ls : List (List ℕ))
    → IsEnd end
    → All IsPlain ls
    → translate false (written end ls) ≡ unlines ls
unfolding written unlines translate
written-unlines [] e h = refl
written-unlines (l ∷ ls) unix h =
    translate-newline l (written (newline ∷ []) ls) h.0
    ∙ ap (λ x. l ++ newline ∷ x) (written-unlines ls unix h.1)
written-unlines (l ∷ ls) mac h = mac-unlines false (l ∷ ls) h
written-unlines (l ∷ ls) windows h =
    translate-return false l (newline ∷ written (return ∷ newline ∷ []) ls) h.0
    ∙ ap (λ x. l ++ newline ∷ x)
        (translate-skip (written (return ∷ newline ∷ []) ls) ∙ written-unlines ls windows h.1)

plain-lines : (ls : List (List ℕ)) → All IsPlain ls → All IsLine ls
plain-lines [] h = tt
plain-lines (l ∷ ls) h = (h.0.0, plain-lines ls h.1)

-- A source whose text was written line by line, with one kind of end after each line, and which is
-- not blank, has no NUL and at most `MAX_BLOCKS` lines, is parsed completely: its blocks are those
-- lines, empty ones included, in their order, and are numbered from 1.
pub text_content-written :
    (source : SourceInput) (end : List ℕ) (ls : List (List ℕ))
    → IsEnd end
    → All IsPlain ls
    → length ls ≤ max_blocks
    → contains (written end ls) 0 ≡ false
    → all is_space (written end ls) ≡ false
    → let e = text_content source (some (written end ls)) in
      (e.status ≡ "completed")
      × (map block_text e.blocks ≡ ls)
      × IsNumbered 1 e.blocks
      × (e.issues ≡ [])
unfolding text_content line_content
text_content-written source end ls is_end plain few no_nul printed =
    rw
      (
        no_nul,
        printed,
        written-unlines ls is_end plain,
        split_lines-unlines ls (plain-lines ls plain),
        within,
      )
      (refl, blocks_from-text source 1 0 false ls, blocks_from-IsNumbered source 1 0 false ls, refl)
  where
    within : ltb max_blocks (length ls) ≡ false
    within = ground arith
