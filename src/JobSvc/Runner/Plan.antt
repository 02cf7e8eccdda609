-- ===== src/JobSvc/Runner/Plan.antt =====
-- services/job_svc/src/job_svc/runner.py: `_parse_plan`. The decoder of `json` and the class `\d` of
-- `re` are parameters.
use agent_exec_platform.Common.{
  ℕ, Bool, Option, none, some, List, [], ◌∷◌, map, Text, is_truthy, lstrip, strip, filter, leb,
  ◌==◌, ◌||◌, ◌&&◌, if◌then◌else◌,
}

-- A line boundary of `str.splitlines`.
unfoldable pub is_boundary : ℕ → Bool
is_boundary c =
    (leb 10 c && leb c 13)
    || ((leb 28 c && leb c 30) || ((c == 0x85) || ((c == 0x2028) || (c == 0x2029))))

-- Puts a character in front of the first line.
abbrev onto_first : ℕ → List Text → List Text
onto_first c [] = (c ∷ []) ∷ []
onto_first c (line ∷ lines) = (c ∷ line) ∷ lines

-- str.splitlines(); `\r\n` is one boundary
unfoldable pub splitlines : Text → List Text
unfolding is_boundary
splitlines [] = []
splitlines (c ∷ []) = if is_boundary c then [] ∷ [] else (c ∷ []) ∷ []
splitlines (c ∷ d ∷ s) =
    let rest = splitlines (d ∷ s) in
    if c == 13 && d == 10
    then ([] ∷ splitlines s)
    else if is_boundary c
    then [] ∷ rest
    else onto_first c rest

module _ (is_decimal : ℕ → Bool) where
  -- The rest of a text after `\d*[.)]`, if it begins so.
  after_number : Text → Option Text
  after_number [] = none
  after_number (c ∷ s) =
      if is_decimal c then after_number s else if c == b'.' || c == b')' then some s else none

  -- The rest after `[-*+]|\d+[.)]`.
  after_bullet : Text → Option Text
  unfolding after_number
  after_bullet [] = none
  after_bullet (c ∷ s) =
      if c == b'-' || (c == b'*' || c == b'+')
      then some s
      else if is_decimal c
      then after_number s
      else none

  -- _BULLET_RE.sub("", line)
  unfoldable pub strip_bullet : Text → Text
  unfolding after_bullet lstrip
  strip_bullet line = elim (after_bullet (lstrip line)) [ some s ↦ lstrip s | none ↦ line ]

  module _ (json_array : Text → Option (List Text)) where
    -- `json_array text` is `[str(item) for item in json.loads(text)]`, where that is an array.
    unfoldable pub parse_plan : Text → List Text
    unfolding strip_bullet splitlines strip is_truthy filter
    parse_plan content =
        let text = strip content in
        if is_truthy text
        then (elim (json_array text) [
          | some items ↦ filter is_truthy (map strip items)
          | none ↦ filter is_truthy (map (λ line. strip (strip_bullet line)) (splitlines text))
        ])
        else []
