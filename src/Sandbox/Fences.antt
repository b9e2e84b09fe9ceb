-- ===== src/Sandbox/Fences.antt =====
-- cognitivetree/sandbox/extraction.py: the code that a thought carries in a fenced block. The two
-- regular expressions are scans of a line, and `textwrap.dedent` works on the lines of a body.
pub mod Payloads
use cognitive_tree_ai.Prelude.{
  ℕ, suc, ◌+◌, ◌==◌, Text, codes, text_eq, is_space, strip, Bool, true, false, Option, none, some,
  List, [], ◌∷◌, ◌++◌, map, not, ◌||◌, ◌&&◌, leb, length, if◌then◌else◌,
}

-- The code points at which `str.splitlines` cuts.
is_break : ℕ → Bool
is_break c =
    (leb 10 c && leb c 13) || (leb 28 c && leb c 30) || (c == 133) || (c == 8232) || (c == 8233)

cons_first : ℕ → List Text → List Text
cons_first c [] = (c ∷ []) ∷ []
cons_first c (line ∷ lines) = (c ∷ line) ∷ lines

-- The flag says that the character before was a carriage return, to which a newline belongs.
split_after : Bool → Text → List Text
unfolding is_break cons_first
split_after returned [] = []
split_after returned (c ∷ s) =
    let same = split_after false s in
    let next = split_after (c == 13) s in
    if returned && (c == 10) then same else if is_break c then [] ∷ next else cons_first c same

-- `text.splitlines()`
unfoldable pub splitlines : Text → List Text
unfolding split_after
splitlines text = split_after false text

unfoldable pub is_blank : ℕ → Bool
is_blank c = (c == 32) || (c == 9)

unfoldable pub drop_blanks : Text → Text
unfolding is_blank
drop_blanks [] = []
drop_blanks (c ∷ s) = if is_blank c then drop_blanks s else c ∷ s

-- How many times the character stands at the front, and what follows.
unfoldable pub run_of : ℕ → Text → ℕ × Text
run_of c [] = (0, [])
run_of c (d ∷ s) = let (n, rest) = run_of c s in if d == c then (suc n, rest) else (0, d ∷ s)

unfoldable pub has_backtick : Text → Bool
has_backtick [] = false
has_backtick (c ∷ s) = (c == 96) || has_backtick s

-- `info.split()[0] if info else ""`
unfoldable pub word : Text → Text
unfolding is_space
word [] = []
word (c ∷ s) = let rest = word s in if is_space c then [] else c ∷ rest

unfoldable pub first_word : Text → Text
unfolding word is_space
first_word [] = []
first_word (c ∷ s) = if is_space c then first_word s else word (c ∷ s)

-- A fence is its character and its length.
pub record Fence : Type 0 where
  pub mark : ℕ
  pub width : ℕ

pub record Block : Type 0 where
  pub tag : Text
  pub body : Text

fence_at : ℕ → Text → Option (Fence × Text)
unfolding run_of has_backtick first_word
fence_at c s =
    let (n, info) = run_of c s in
    if leb 3 n && not (has_backtick info)
    then some (record { mark = c; width = n }, first_word info)
    else none

-- `_OPENING_FENCE.match(line)`: the fence, and the tag of its info string. A match takes the whole
-- run of marks, since no backtick may follow a fence.
unfoldable pub opening : Text → Option (Fence × Text)
unfolding drop_blanks fence_at
opening line = elim (drop_blanks line) [
  | [] ↦ none
  | c ∷ s ↦ if (c == 96) || (c == 126) then fence_at c (c ∷ s) else none
]

unfoldable pub all_marks : ℕ → Text → Bool
all_marks c [] = true
all_marks c (d ∷ s) = (d == c) && all_marks c s

-- `_closes(line, fence)`
unfoldable pub closes : Text → Fence → Bool
unfolding all_marks
closes line fence =
    let stripped = strip line in leb fence.width (length stripped) && all_marks fence.mark stripped

-- The leading blanks of a line, or nothing for a line of blanks.
indent_of : Text → Option Text
unfolding is_blank
indent_of [] = none
indent_of (c ∷ s) = if is_blank c then longer c (indent_of s) else some []
  where
    longer : ℕ → Option Text → Option Text
    longer d none = none
    longer d (some t) = some (d ∷ t)

common : Text → Text → Text
common [] t = []
common (a ∷ s) [] = []
common (a ∷ s) (b ∷ t) = if a == b then a ∷ common s t else []

-- The margin of the lines, from the one of the lines before.
unfoldable pub margin_from : Option Text → List Text → Option Text
unfolding indent_of common
margin_from margin [] = margin
margin_from margin (line ∷ lines) = margin_from (narrow margin (indent_of line)) lines
  where
    narrow : Option Text → Option Text → Option Text
    narrow m none = m
    narrow none (some t) = some t
    narrow (some m) (some t) = some (common m t)

remove : Text → Text → Text
remove [] line = line
remove (c ∷ margin) [] = []
remove (c ∷ margin) (d ∷ line) = remove margin line

or_empty : Option Text → Text
or_empty none = []
or_empty (some t) = t

-- A line of blanks becomes empty, and any other line loses the margin, with which it begins.
dedent_line : Text → Text → Text
unfolding indent_of remove
dedent_line margin line = elim (indent_of line) [ none ↦ [] | some t ↦ remove margin line ]

-- `textwrap.dedent` on lines.
unfoldable pub dedent : List Text → List Text
unfolding margin_from dedent_line or_empty
dedent lines = map (dedent_line (or_empty (margin_from none lines))) lines

-- `"\n".join(lines)`
unfoldable pub join_lines : List Text → Text
join_lines [] = []
join_lines (line ∷ []) = line
join_lines (line ∷ next ∷ lines) = line ++ (10 ∷ join_lines (next ∷ lines))

-- A block that is open: its fence and tag, and the lines that it has.
pub record Open : Type 0 where
  pub fence : Fence
  pub tag : Text
  pub lines : List Text

unfoldable pub block_of : Open → Block
unfolding dedent join_lines
block_of o = record { tag = o.tag; body = strip (join_lines (dedent o.lines)) }

-- The two loops of `_fenced_blocks`, line by line: outside of a block, or in one.
unfoldable pub scan : Option Open → List Text → List Block
unfolding opening closes block_of
scan none [] = []
scan none (line ∷ lines) = elim (opening line) [
  | none ↦ scan none lines
  | some (fence, tag) ↦ scan (some (record { fence = fence; tag = tag; lines = [] })) lines
]
scan (some o) [] = block_of o ∷ []
scan (some o) (line ∷ lines) =
    let after = scan none lines in
    let more = scan (some (record o { lines = o.lines ++ line ∷ [] })) lines in
    if closes line o.fence then block_of o ∷ after else more

-- `_fenced_blocks(text)`
unfoldable pub fenced_blocks : Text → List Block
unfolding splitlines scan
fenced_blocks text = scan none (splitlines text)

lower : ℕ → ℕ
lower c = if leb 65 c && leb c 90 then c + 32 else c

all_digits : Text → Bool
all_digits [] = true
all_digits (c ∷ s) = leb 48 c && leb c 57 && all_digits s

-- `(?:3(?:\.\d+)?)?$`, with the ASCII digits.
is_version : Text → Bool
unfolding all_digits
is_version [] = true
is_version (c ∷ []) = c == 51
is_version (c ∷ d ∷ []) = false
is_version (c ∷ d ∷ e ∷ s) = (c == 51) && (d == 46) && all_digits (e ∷ s)

after : Text → Text → Option Text
after [] s = some s
after (c ∷ p) [] = none
after (c ∷ p) (d ∷ s) = if c == d then after p s else none

version_after : Option Text → Bool
unfolding is_version
version_after none = false
version_after (some s) = is_version s

-- `_PYTHON_TAG.match(tag)`
unfoldable pub is_python : Text → Bool
unfolding lower after version_after
is_python tag =
    let t = map lower tag in
    version_after (after (codes "py") t) || version_after (after (codes "python") t)

unfoldable pub no_text : Text → Bool
no_text [] = true
no_text (c ∷ s) = false

unfoldable pub first_of : Option Text → Text → Option Text
first_of none t = some t
first_of (some u) t = some u

-- The loop over the blocks, with the first untagged body so far.
unfoldable pub pick : Option Text → List Block → Option Text
unfolding no_text is_python first_of
pick untagged [] = untagged
pick untagged (b ∷ bs) =
    let pass = pick untagged bs in
    let kept = pick (first_of untagged b.body) bs in
    if no_text b.body
    then pass
    else if is_python b.tag
    then some b.body
    else if no_text b.tag
    then kept
    else pass

-- `extract_python_payload(text)`
unfoldable pub extract_python_payload : Text → Option Text
unfolding fenced_blocks pick
extract_python_payload text = pick none (fenced_blocks text)
