-- ===== src/Config/Entries.antt =====
-- `cRouter::readConfigFile`: from the lines of the file to `vConfig`. Reading the lines is left to
-- the standard library's `getline`.
use simple_sdn.Base.{
  Bool, true, false, ◌&&◌, ◌||◌, ◌==◌, if◌then◌else◌, List, [], ◌∷◌, ◌++◌, Text, text, Option, none,
  some,
}
use simple_sdn.Config.Parser.{parser}

-- `std::string::operator==`.
unfoldable pub text_eq : Text → Text → Bool
text_eq [] [] = true
text_eq [] (c ∷ t) = false
text_eq (c ∷ s) [] = false
text_eq (c ∷ s) (d ∷ t) = c == d && text_eq s t

unfoldable pub is_key : Text → Bool
unfolding text_eq
is_key w =
    text_eq w (text "stage") || text_eq w (text "num_routers") || text_eq w (text "drop_after")

-- The loop over the words of a line: the word behind a key word is an entry. `none` is the read
-- behind the end of `output` when a key word is the last.
unfoldable pub line_entries : List Text → Option (List Text)
unfolding is_key
line_entries [] = some []
line_entries (w ∷ []) = if is_key w then none else some []
line_entries (w ∷ v ∷ ws) =
    let skip = line_entries (v ∷ ws) in
    let take = line_entries ws in
    if is_key w then elim take [ none ↦ none | some es ↦ some (v ∷ es) ] else skip

abbrev append_entries : Option (List Text) → Option (List Text) → Option (List Text)
append_entries none r = none
append_entries (some es) none = none
append_entries (some es) (some fs) = some (es ++ fs)

-- `readConfigFile` over the lines read; a line without words adds nothing.
unfoldable pub read_config : List Text → Option (List Text)
unfolding line_entries
read_config [] = some []
read_config (line ∷ lines) =
    let (count, words) = parser line in
    let rest = read_config lines in
    if count == 0 then rest else append_entries (line_entries words) rest
