-- ===== src/EditFile.antt =====
-- The edit tool of src/tools/executors.ts, on the content of the file. Texts are lists of UTF-16 code
-- units. The resolution of the path and the tests of the file system before the read are left out.
pub mod Occurrences
pub mod Single
pub mod All
mod Examples
use ai_model_arena.Common.{
  ℕ, zero, suc, ◌+◌, ◌-◌, ◌≤◌, ◌<◌, ◌≡◌, Bool, true, false, not, ◌&&◌, ◌||◌, Option, none, some,
  List, [], ◌∷◌, ◌++◌, if◌then◌else◌, leb, ltb, ◌==◌, length, take, drop,
}

abbrev pub Content : Type 0
Content = List ℕ

same_text : Content → Content → Bool
same_text [] [] = true
same_text [] (d ∷ ds) = false
same_text (c ∷ cs) [] = false
same_text (c ∷ cs) (d ∷ ds) = c == d && same_text cs ds

-- `rest.slice(0, oldStr.length) === oldStr`
unfoldable pub is_prefix : Content → Content → Bool
is_prefix [] rest = true
is_prefix (c ∷ old) [] = false
is_prefix (c ∷ old) (d ∷ rest) = c == d && is_prefix old rest

-- What the loop of a single replacement keeps.
pub record Search : Type 0 where
  pub idx : ℕ
  pub match_count : ℕ
  pub match_line : ℕ
  pub line : ℕ
  pub lines : List ℕ

abbrev pub no_search : Search
no_search = record { idx = 0; match_count = 0; match_line = 0; line = 1; lines = [] }

abbrev pub count_line : ℕ → Search → Search
count_line c s = if c == b'\n' then record s { line = s.line + 1 } else s

abbrev pub note_match : ℕ → Search → Search
note_match i s = record s {
  match_count = s.match_count + 1;
  idx = if s.match_count == 0 then i else s.idx;
  match_line = if s.match_count == 0 then s.line else s.match_line;
  lines = s.lines ++ s.line ∷ [];
}

-- The loop at the index `i`, where `rest` is `original.slice(i)`.
unfoldable pub search_from : Content → ℕ → Content → Search → Search
search_from old i [] s = s
search_from old i (c ∷ rest) s =
    let counted = count_line c s in
    search_from old (i + 1) rest
      (if is_prefix old (c ∷ rest) then note_match i counted else counted)

pub data EditResult : Type 0 where
  identical not_found : EditResult
  ambiguous : (match_count : ℕ) → (lines : List ℕ) → EditResult
  replaced : Content → (line : ℕ) → EditResult
  -- The reported count is one less than the parts, -1 where there is none.
  replaced_all : Content → (parts : ℕ) → EditResult

abbrev pub replace_at : Content → ℕ → Content → Content → Content
replace_at old idx new original = take idx original ++ (new ++ drop (idx + length old) original)

abbrev pub single_result : Content → Content → Content → Search → EditResult
single_result old new original s =
    if s.match_count == 0
    then not_found
    else if ltb 1 s.match_count
    then ambiguous s.match_count s.lines
    else replaced (replace_at old s.idx new original) s.match_line

unfoldable pub replace_single : Content → Content → Content → EditResult
replace_single old new original =
    single_result old new original (search_from old 0 original no_search)

abbrev push_front : ℕ → List Content → List Content
push_front c [] = (c ∷ []) ∷ []
push_front c (part ∷ parts) = (c ∷ part) ∷ parts

-- `split` by a separator that is not empty; `skip` code units of a match are still to be passed over.
splits : Content → ℕ → Content → List Content
splits old skip [] = [] ∷ []
splits old (suc skip) (c ∷ rest) = splits old skip rest
splits old zero (c ∷ rest) =
    let cut = [] ∷ splits old (length old - 1) rest in
    let kept = push_front c (splits old 0 rest) in if is_prefix old (c ∷ rest) then cut else kept

-- By the empty separator, each code unit is a part.
units : Content → List Content
units [] = []
units (c ∷ rest) = (c ∷ []) ∷ units rest

unfoldable pub split : Content → Content → List Content
unfolding splits units
split [] original = units original
split (c ∷ old) original = splits (c ∷ old) 0 original

unfoldable pub join : Content → List Content → Content
join new [] = []
join new (part ∷ []) = part
join new (part ∷ next ∷ parts) = part ++ (new ++ join new (next ∷ parts))

unfoldable pub replace_all : Content → Content → Content → EditResult
replace_all old new original =
    let parts = split old original in
    if length parts == 1 then not_found else replaced_all (join new parts) (length parts)

unfoldable pub edit_file : Bool → Content → Content → Content → EditResult
unfolding same_text
edit_file all old new original =
    if same_text old new
    then identical
    else if all
    then replace_all old new original
    else replace_single old new original
