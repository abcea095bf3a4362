-- ===== src/Content.antt =====
-- tg_testcase/content.py: the envelope that a parsed source becomes. Text is a list of code points;
-- the decoding of bytes is Python's, and `parse_complex` is an argument.
pub mod Lines
pub mod Ends
use my_ops.Prelude.{
  ℕ, suc, ◌+◌, ◌++◌, String, Bool, true, false, not, ◌&&◌, ◌||◌, Option, none, some, List, [], ◌∷◌,
  map, contains, all, is_empty, is_space, ltb, length, ◌==◌, nat_eq, string_eq, if◌then◌else◌,
}
use my_ops.Store.{SourceInput}

pub record Block : Type 0 where
  pub text : List ℕ
  pub source_id : String
  pub path : String
  pub line : ℕ
  pub paragraph : ℕ

-- `CONTENT_SCHEMA_VERSION`
abbrev pub content_schema_version : ℕ
content_schema_version = 1

-- `PARSER_VERSION`
abbrev pub parser_version : String
parser_version = "offline-content/2"

-- `POLICY_VERSION`
abbrev pub policy_version : String
policy_version = "bounded-offline/2"

abbrev pub untrusted : String
untrusted = "untrusted_source_data"

-- The envelope; `path` is that of its locator.
pub record Envelope : Type 0 where
  pub schema : ℕ
  pub trust : String
  pub parser : String
  pub policy : String
  pub source_id : String
  pub origin : String
  pub sha256 : Option String
  pub byte_length : Option ℕ
  pub revision : ℕ
  pub path : String
  pub status : String
  pub completeness : String
  pub blocks : List Block
  pub issues : List String

-- `parse_content(source, error=error)`
unfoldable pub failed_content : SourceInput → String → Envelope
failed_content source error = record {
  schema = content_schema_version;
  trust = untrusted;
  parser = parser_version;
  policy = policy_version;
  source_id = source.source_id;
  origin = source.origin;
  sha256 = source.sha256;
  byte_length = source.byte_length;
  revision = source.revision;
  path = source.locator;
  status = "failed";
  completeness = "incomplete";
  blocks = [];
  issues = error ∷ [];
}

abbrev pub newline : ℕ
newline = 10

abbrev pub return : ℕ
return = 13

-- Universal newlines: a return, or a return with a newline, becomes a newline. `after` says that a
-- return came just before.
unfoldable pub translate : Bool → List ℕ → List ℕ
translate after [] = []
translate after (c ∷ cs) =
    let rest = translate (c == return) cs in
    if c == newline && after then rest else (if c == return then newline else c) ∷ rest

abbrev pub push : ℕ → List (List ℕ) → List (List ℕ)
push c [] = (c ∷ []) ∷ []
push c (l ∷ ls) = (c ∷ l) ∷ ls

-- The lines of a text that `translate` read, without their newlines; what comes after the last newline
-- is a line, if there is any.
unfoldable pub split_lines : List ℕ → List (List ℕ)
split_lines [] = []
split_lines (c ∷ cs) = let rest = split_lines cs in if c == newline then [] ∷ rest else push c rest

-- `not line.strip()`
abbrev pub is_blank_line : List ℕ → Bool
is_blank_line l = all is_space l

-- `paragraph += 1`, where a line with text follows one without
abbrev pub next_paragraph : List ℕ → Bool → ℕ → ℕ
next_paragraph l inside paragraph =
    if not (is_blank_line l) && not inside then suc paragraph else paragraph

-- The loop over the lines: their number, the paragraph, and whether the last line was in one.
unfoldable pub blocks_from : SourceInput → ℕ → ℕ → Bool → List (List ℕ) → List Block
blocks_from source number paragraph inside [] = []
blocks_from source number paragraph inside (l ∷ ls) =
    record {
      text = l;
      source_id = source.source_id;
      path = source.locator;
      line = number;
      paragraph = next_paragraph l inside paragraph;
    }
    ∷ blocks_from source (suc number) (next_paragraph l inside paragraph) (not (is_blank_line l)) ls

-- `MAX_BLOCKS`
abbrev pub max_blocks : ℕ
max_blocks = 20000

-- The lines of a text, as far as the limit on blocks lets them be.
unfoldable pub line_content : SourceInput → List (List ℕ) → Envelope
unfolding failed_content blocks_from
line_content source lines =
    if ltb max_blocks (length lines)
    then failed_content source "block_limit_exceeded"
    else record (failed_content source "") {
      status = "completed";
      completeness = "complete";
      blocks = blocks_from source 1 0 false lines;
      issues = [];
    }

unfoldable pub text_content : SourceInput → Option (List ℕ) → Envelope
unfolding failed_content translate split_lines line_content
text_content source none = failed_content source "invalid_utf8"
text_content source (some text) =
    if contains text 0
    then failed_content source "nul_byte"
    else if all is_space text
    then failed_content source "empty_text"
    else line_content source (split_lines (translate false text))

-- `bytes.decode('utf-8-sig')`, and `parse_complex` on the envelope of a source.
pub record Parsers : Type 0 where
  pub decode : List ℕ → Option (List ℕ)
  pub complex : SourceInput → List ℕ → Envelope

abbrev pub is_complex : String → Bool
is_complex kind = contains ("pdf" ∷ "docx" ∷ "xlsx" ∷ "png" ∷ "jpg" ∷ "jpeg" ∷ []) kind

-- `parse_content(source, blob)`
unfoldable pub parse_content : Parsers → SourceInput → List ℕ → Envelope
unfolding failed_content text_content
parse_content parsers source blob =
    if is_complex source.kind
    then parsers.complex source blob
    else if not (contains ("text" ∷ "txt" ∷ "md" ∷ []) source.kind)
    then failed_content source "unsupported_parser"
    else text_content source (parsers.decode blob)
