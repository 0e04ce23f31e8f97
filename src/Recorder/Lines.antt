-- ===== src/Recorder/Lines.antt =====
-- `parse` of internal/recorder/recorder.go, and what it uses of the package `bytes`.
use network_skill_lab.Prelude.{
  Bool, List, Option, String, Time, [], false, if◌then◌else◌, leb, none, some, suc, true, ℕ, ◌&&◌,
  ◌==◌, ◌||◌, ◌∷◌,
}
use network_skill_lab.Content.Lab.{Bytes}

abbrev pub newline : ℕ
newline = 10

-- `bytes.LastIndexByte` for the newline; `none` stands for -1.
unfoldable pub last_index : Bytes → Option ℕ
last_index [] = none
last_index (b ∷ rest) = elim (last_index rest) [
  | some i ↦ some (suc i)
  | none ↦ if b == newline then some 0 else none
]

abbrev pub prepend : ℕ → List Bytes → List Bytes
prepend b [] = (b ∷ []) ∷ []
prepend b (line ∷ lines) = (b ∷ line) ∷ lines

-- `bytes.Split` at the newlines.
unfoldable pub split : Bytes → List Bytes
split [] = [] ∷ []
split (b ∷ rest) = let lines = split rest in if b == newline then [] ∷ lines else prepend b lines

-- The part of a white space character of UTF-8 that has been read.
pub data Seen : Type 0 where
  start : Seen
  one : ℕ → Seen
  two : ℕ → ℕ → Seen

abbrev within : ℕ → ℕ → ℕ → Bool
within low high b = leb low b && leb b high

abbrev ends_space : Seen → ℕ → Bool
ends_space start b = within 9 13 b || b == 32
ends_space (one a) b = a == 194 && (b == 133 || b == 160)
ends_space (two a b) c =
    a == 225 && b == 154 && c == 128
    || a == 226 && b == 128 && (within 128 138 c || c == 168 || c == 169 || c == 175)
    || a == 226 && b == 129 && c == 159
    || a == 227 && b == 128 && c == 128

abbrev begins_space : Seen → ℕ → Option Seen
begins_space start b = if b == 194 || within 225 227 b then some (one b) else none
begins_space (one a) b = if within 225 227 a then some (two a b) else none
begins_space (two a b) c = none

abbrev advance : Seen → ℕ → Option Seen
advance seen b = if ends_space seen b then some start else begins_space seen b

abbrev blank_from : Seen → Bytes → Bool
blank_from start [] = true
blank_from (one a) [] = false
blank_from (two a b) [] = false
blank_from seen (b ∷ rest) = elim (advance seen b) [
  | none ↦ false
  | some seen' ↦ blank_from seen' rest
]

-- `len(bytes.TrimSpace(raw)) == 0`
unfoldable pub is_blank : Bytes → Bool
is_blank raw = blank_from start raw

-- `logLine`; the exit code is an `int` as its bit pattern.
pub record LogLine : Type 0 where
  pub ts : Time
  pub user : String
  pub cwd : String
  pub cmd : String
  pub exit : ℕ

-- `store.CommandEntry`, less the id that the table gives it.
pub record CommandEntry : Type 0 where
  pub attempt_id : String
  pub node : String
  pub ts : Time
  pub user : String
  pub cwd : String
  pub command : String
  pub exit_code : ℕ

pub data Parsed : Type 0 where
  blank bad : Parsed
  entry : CommandEntry → Parsed

abbrev pub add : Parsed → List CommandEntry × ℕ → List CommandEntry × ℕ
add blank (entries, skipped) = (entries, skipped)
add bad (entries, skipped) = (entries, suc skipped)
add (entry e) (entries, skipped) = (e ∷ entries, skipped)

-- `json.Unmarshal` into a `logLine` is the parameter `decode`.
module _ (decode : Bytes → Option LogLine) (attempt_id node : String) where
  unfoldable pub parse_line : Bytes → Parsed
  parse_line raw = if is_blank raw then blank else elim (decode raw) [
    | none ↦ bad
    | some line ↦
        if line.ts == 0
        then bad
        else entry (record {
          attempt_id = attempt_id;
          node = node;
          ts = line.ts;
          user = line.user;
          cwd = line.cwd;
          command = line.cmd;
          exit_code = line.exit;
        })
  ]

  unfoldable pub parse_lines : List Bytes → List CommandEntry × ℕ
  parse_lines [] = ([], 0)
  parse_lines (raw ∷ lines) = add (parse_line raw) (parse_lines lines)

  -- The entries in their order, and the count of the lines that were skipped.
  unfoldable pub parse : Bytes → List CommandEntry × ℕ
  parse bytes = parse_lines (split bytes)
