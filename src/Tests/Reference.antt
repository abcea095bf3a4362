-- ===== src/Tests/Reference.antt =====
-- References to pages of Notion.
use my_ops.Prelude.{◌≡◌, refl, ℕ, List, ok, codes}
use my_ops.Reference.{
  parse_notion_reference, fits, compact, strip_prefix, segment_of, is_title, parse_segment,
}
use my_ops.Reference.Canonical.{
  IsId, parse_notion_reference-IsId, parse_notion_reference-idempotent,
}

abbrev link : List ℕ
link = codes "https://www.notion.so/Test-plan-0123456789ABCDEF0123456789abcdef"

abbrev page : List ℕ
page = codes "0123456789abcdef0123456789abcdef"

read_link : parse_notion_reference link ≡ ok page
unfolding parse_notion_reference fits compact strip_prefix segment_of is_title parse_segment
read_link = refl

parse_notion_reference-IsId_example : IsId page
parse_notion_reference-IsId_example = parse_notion_reference-IsId link page read_link

parse_notion_reference-idempotent_example : parse_notion_reference page ≡ ok page
parse_notion_reference-idempotent_example = parse_notion_reference-idempotent link page read_link
