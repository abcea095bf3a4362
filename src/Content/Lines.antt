-- ===== src/Content/Lines.antt =====
-- content.py: the lines of a text, and the blocks that they become.
use my_ops.Prelude.{
  ℕ, suc, ◌≤◌, ◌≡◌, refl, ap, ◌∙◌, Bool, false, ◌⊎◌, inl, inr, List, [], ◌∷◌, ◌++◌, map, All,
  Option, none, some, String, arith, contains, Bool-cases, ◌==◌, nat_eq, length, ltb, all, is_space,
  string_eq,
}
use my_ops.Store.{SourceInput}
use my_ops.Content.{
  newline, push, split_lines, translate, Block, Envelope, blocks_from, max_blocks, line_content,
  failed_content, text_content,
}

-- Each line with a newline after it.
unfoldable pub unlines : List (List ℕ) → List ℕ
unlines [] = []
unlines (l ∷ ls) = l ++ newline ∷ unlines ls

-- A line holds no newline.
abbrev pub IsLine : List ℕ → Type 0
IsLine l = contains l newline ≡ false

push-IsLine :
    (c : ℕ) (ls : List (List ℕ)) → (c == newline) ≡ false → All IsLine ls → All IsLine (push c ls)
push-IsLine c [] other h = (rw other, tt)
push-IsLine c (l ∷ ls) other h = (rw other h.0, h.1)

-- Splitting gives lines.
split_lines-IsLine : (t : List ℕ) → All IsLine (split_lines t)
unfolding split_lines
split_lines-IsLine [] = tt
split_lines-IsLine (c ∷ cs) = elim (Bool-cases (c == newline)) [
  | inl e ↦ rw e (refl, split_lines-IsLine cs)
  | inr e ↦ rw e (push-IsLine c (split_lines cs) e (split_lines-IsLine cs))
]

-- A line in front of a newline is split off whole.
split_lines-append : (l t : List ℕ) → IsLine l → split_lines (l ++ newline ∷ t) ≡ l ∷ split_lines t
unfolding split_lines
split_lines-append [] t h = refl
split_lines-append (c ∷ l) t h = elim (Bool-cases (c == newline)) [
  | inl e ↦ cc (rw e at h)
  | inr e ↦ rw (e, split_lines-append l t (rw e at h))
]

-- Splitting undoes joining: lines that are written out with a newline each come back as they were.
pub split_lines-unlines : (ls : List (List ℕ)) → All IsLine ls → split_lines (unlines ls) ≡ ls
unfolding split_lines unlines
split_lines-unlines [] h = refl
split_lines-unlines (l ∷ ls) h =
    split_lines-append l (unlines ls) h.0 ∙ ap (λ x. l ∷ x) (split_lines-unlines ls h.1)

abbrev pub block_text : Block → List ℕ
block_text b = b.text

-- Blocks that are numbered from `n`.
abbrev pub IsNumbered : ℕ → List Block → Type 0
IsNumbered n [] = Unit
IsNumbered n (b ∷ bs) = (b.line ≡ n) × IsNumbered (suc n) bs

pub blocks_from-text :
    (source : SourceInput) (n p : ℕ) (inside : Bool) (ls : List (List ℕ))
    → map block_text (blocks_from source n p inside ls) ≡ ls
unfolding blocks_from
blocks_from-text source n p inside [] = refl
blocks_from-text source n p inside (l ∷ ls) =
    ap (λ x. l ∷ x) (blocks_from-text source (suc n) _ _ ls)

pub blocks_from-IsNumbered :
    (source : SourceInput) (n p : ℕ) (inside : Bool) (ls : List (List ℕ))
    → IsNumbered n (blocks_from source n p inside ls)
unfolding blocks_from
blocks_from-IsNumbered source n p inside [] = tt
blocks_from-IsNumbered source n p inside (l ∷ ls) =
    (refl, blocks_from-IsNumbered source (suc n) _ _ ls)

-- The envelope of a source, its blocks being the lines of the text.
pub record IsParsed (source : SourceInput) (text : List ℕ) (e : Envelope) : Type 0 where
  pub texts : map block_text e.blocks ≡ split_lines (translate false text)
  pub numbered : IsNumbered 1 e.blocks
  pub few : length (map block_text e.blocks) ≤ max_blocks
  pub plain : contains text 0 ≡ false
  pub issues : e.issues ≡ []
  pub completeness : e.completeness ≡ "complete"

-- The envelope of a source that was not parsed.
pub record IsFailed (e : Envelope) : Type 0 where
  pub status : e.status ≡ "failed"
  pub blocks : e.blocks ≡ []
  pub reason : String
  pub issues : e.issues ≡ reason ∷ []
  pub completeness : e.completeness ≡ "incomplete"

failed_content-IsFailed :
    (source : SourceInput) (reason : String) → IsFailed (failed_content source reason)
unfolding failed_content
failed_content-IsFailed source reason = record {
  status = refl;
  blocks = refl;
  reason = reason;
  issues = refl;
  completeness = refl;
}

line_content-IsParsed :
    (source : SourceInput) (text : List ℕ)
    → contains text 0 ≡ false
    → let e = line_content source (split_lines (translate false text)) in
      IsFailed e ⊎ ((e.status ≡ "completed") × IsParsed source text e)
unfolding line_content
line_content-IsParsed source text plain =
    elim (Bool-cases (ltb max_blocks (length (split_lines (translate false text))))) [
      | inl e ↦ rw e (inl (failed_content-IsFailed source "block_limit_exceeded"))
      | inr e ↦ rw e (
          inr (
            refl,
            record {
              texts = texts;
              numbered =
                  blocks_from-IsNumbered source 1 0 false (split_lines (translate false text));
              few = rw texts (within max_blocks (length (split_lines (translate false text))) e);
              plain = plain;
              issues = refl;
              completeness = refl;
            },
          ))
    ]
  where
    within : (m n : ℕ) → ltb m n ≡ false → n ≤ m
    within m n e = ground arith

    texts :
        map block_text (blocks_from source 1 0 false (split_lines (translate false text)))
        ≡ split_lines (translate false text)
    texts = blocks_from-text source 1 0 false (split_lines (translate false text))

-- A source of text is completed with one numbered block for each line, line ends of any kind being
-- the same, in their order, at most 20000 of them, and no issue; or it is failed, with no block and
-- one issue.
pub text_content-IsParsed :
    (source : SourceInput) (o : Option (List ℕ))
    → let e = text_content source o in
      IsFailed e
      ⊎ ((text : List ℕ) × (o ≡ some text) × (e.status ≡ "completed") × IsParsed source text e)
unfolding text_content
text_content-IsParsed source none = inl (failed_content-IsFailed source "invalid_utf8")
text_content-IsParsed source (some text) = elim (Bool-cases (contains text 0)) [
  | inl e ↦ rw e (inl (failed_content-IsFailed source "nul_byte"))
  | inr plain ↦ rw plain (elim (Bool-cases (all is_space text)) [
    | inl e ↦ rw e (inl (failed_content-IsFailed source "empty_text"))
    | inr e ↦ rw e (elim (line_content-IsParsed source text plain) [
      | inl f ↦ inl f
      | inr (done, parsed) ↦ inr (text, refl, done, parsed)
    ])
  ])
]
