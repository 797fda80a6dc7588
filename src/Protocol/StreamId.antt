-- ===== src/Protocol/StreamId.antt =====
-- srt-protocol/src/access_control.rs: the structured stream id, read (`StreamIdInfo::parse`) and printed
-- (`to_stream_id`). `trim` is std's, a parameter.
pub mod Trip
use bilbycast_libsrt_rs.Shared.{
  ℕ, Bool, true, false, List, [], ◌∷◌, ◌++◌, Option, none, some, ◌==◌, if◌then◌else◌, Text, codes,
  is_empty,
}

-- `raw`, the text it was read from, stands last as in the source.
pub record StreamIdInfo : Type 0 where
  pub resource : Option Text
  pub mode : Option Text
  pub session_id : Option Text
  pub content_type : Option Text
  pub user_name : Option Text
  pub host_name : Option Text
  pub extra : List (Text × Text)
  pub raw : Text

-- `StreamIdInfo { raw, ..Default::default() }`
abbrev pub blank : Text → StreamIdInfo
blank raw = record {
  resource = none;
  mode = none;
  session_id = none;
  content_type = none;
  user_name = none;
  host_name = none;
  extra = [];
  raw = raw;
}

abbrev pub comma : ℕ
comma = 44

abbrev pub equals : ℕ
equals = 61

-- The first piece and the rest of `str::split`, which always gives one piece at least.
unfoldable pub split_at_first : ℕ → Text → Text × List Text
split_at_first sep [] = ([], [])
split_at_first sep (c ∷ cs) =
    let (piece, pieces) = split_at_first sep cs in
    if c == sep then ([], piece ∷ pieces) else (c ∷ piece, pieces)

abbrev pub split : ℕ → Text → List Text
split sep text = let (piece, pieces) = split_at_first sep text in piece ∷ pieces

-- The match of `str::split_once` on the rest.
abbrev pub cons_first : ℕ → Option (Text × Text) → Option (Text × Text)
cons_first c none = none
cons_first c (some (before, after)) = some (c ∷ before, after)

unfoldable pub split_once : ℕ → Text → Option (Text × Text)
split_once sep [] = none
split_once sep (c ∷ cs) =
    let rest = cons_first c (split_once sep cs) in if c == sep then some ([], cs) else rest

-- `str::strip_prefix`
unfoldable pub strip_prefix : Text → Text → Option Text
strip_prefix [] text = some text
strip_prefix (p ∷ ps) [] = none
strip_prefix (p ∷ ps) (c ∷ cs) = let rest = strip_prefix ps cs in if p == c then rest else none

abbrev pub prefix : Text
prefix = codes "#!::"

-- The arms of the match on the key, by its one character: r, m, s, t, u, h.
abbrev pub set_char : ℕ → Text → Text → StreamIdInfo → StreamIdInfo
set_char c key value info =
    if c == 114
    then record info { resource = some value }
    else if c == 109
    then record info { mode = some value }
    else if c == 115
    then record info { session_id = some value }
    else if c == 116
    then record info { content_type = some value }
    else if c == 117
    then record info { user_name = some value }
    else if c == 104
    then record info { host_name = some value }
    else record info { extra = info.extra ++ (key, value) ∷ [] }

unfoldable pub set_field : Text → Text → StreamIdInfo → StreamIdInfo
set_field (c ∷ []) value info = set_char c (c ∷ []) value info
set_field key value info = record info { extra = info.extra ++ (key, value) ∷ [] }

-- A pair with no `=` is passed over.
abbrev pub set_pair : Option (Text × Text) → StreamIdInfo → StreamIdInfo
set_pair none info = info
set_pair (some (key, value)) info = set_field key value info

-- The loop over the pairs. `trim` is std's.
unfoldable pub read_pairs : (trim : Text → Text) → List Text → StreamIdInfo → StreamIdInfo
read_pairs trim [] info = info
read_pairs trim (pair ∷ pairs) info =
    read_pairs trim pairs
      (if is_empty (trim pair) then info else set_pair (split_once equals (trim pair)) info)

-- The two branches on the prefix.
abbrev pub read_params : (trim : Text → Text) → Option Text → StreamIdInfo → StreamIdInfo
read_params trim none info = record info { resource = some info.raw }
read_params trim (some params) info = read_pairs trim (split comma params) info

unfoldable pub parse : (trim : Text → Text) → Text → StreamIdInfo
parse trim text =
    if is_empty text then blank text else read_params trim (strip_prefix prefix text) (blank text)

-- `format!("{key}={value}")`
abbrev pub pair_text : Text × Text → Text
pair_text (key, value) = key ++ equals ∷ value

abbrev pub field_part : ℕ → Option Text → List Text
field_part c none = []
field_part c (some value) = pair_text (c ∷ [], value) ∷ []

abbrev pub extra_parts : List (Text × Text) → List Text
extra_parts [] = []
extra_parts (pair ∷ pairs) = pair_text pair ∷ extra_parts pairs

unfoldable pub parts : StreamIdInfo → List Text
parts info =
    field_part 114 info.resource
    ++ (field_part 109 info.mode
        ++ (field_part 115 info.session_id
            ++ (field_part 116 info.content_type
                ++ (field_part 117 info.user_name
                    ++ (field_part 104 info.host_name ++ extra_parts info.extra)))))

-- `parts.join(",")`
abbrev pub join : List Text → Text
join [] = []
join (part ∷ []) = part
join (part ∷ rest) = part ++ comma ∷ join rest

unfoldable pub to_stream_id : StreamIdInfo → Text
to_stream_id info = let ps = parts info in if is_empty ps then [] else prefix ++ join ps
