-- ===== src/Llb/Quoting.antt =====
-- The values of the exported variables, as a shell reads them.
use Prim.Native.Char.{Char}
use Prim.Native.String.append
use Prim.Native.String.{String}
use melange.Prelude.{
  ◌∷◌, ◌≡◌, refl, sym, ap, ◌∙◌, inl, inr, true, false, ◌||◌, Option, none, some, arith,
  if◌then◌else◌, ◌==◌, ==_iff, string_eq, Bool-cases,
}
use melange.Prelude.Text.{◌<>◌}
use melange.Prelude.Maps.{Dict}
use melange.Llb.Scripts.{escape_quotes, env_exports}

-- Where the shell is in a word: outside quotes, in single quotes, or in double quotes.
pub data Quote : Type 0 where
  bare in_single in_double : Quote

-- What POSIX shells read of a word up to its line end: single quotes keep each character, and double quotes
-- keep each character but those that start an expansion or an escape, for which there is no answer here.
-- Outside quotes there is an answer only for quotes and the line end.
unfoldable pub read_word : Quote → String → Option String
read_word q String.[] = none
read_word bare (String.◌∷◌ c s) =
    let single = read_word in_single s in
    let double = read_word in_double s in
    let char = String.◌∷◌ c "" in
    if char == "'"
    then single
    else if char == "\""
    then double
    else if char == "\n"
    then some ""
    else none
read_word in_single (String.◌∷◌ c s) =
    let outside = read_word bare s in
    let rest = read_word in_single s in
    if String.◌∷◌ c "" == "'"
    then outside
    else elim rest [ none ↦ none | some t ↦ some (String.◌∷◌ c t) ]
read_word in_double (String.◌∷◌ c s) =
    let outside = read_word bare s in
    let rest = read_word in_double s in
    let char = String.◌∷◌ c "" in
    if char == "\""
    then outside
    else if char == "$" || char == "`" || char == "\\"
    then none
    else elim rest [ none ↦ none | some t ↦ some (String.◌∷◌ c t) ]

-- The text with a character before it.
abbrev pub before : Char → Option String → Option String
before c none = none
before c (some t) = some (String.◌∷◌ c t)

escape_quotes-quote :
    (c : Char) (s : String)
    → (String.◌∷◌ c "" == "'") ≡ true
    → escape_quotes (String.◌∷◌ c s) ≡ "'\"'\"'" <> escape_quotes s
unfolding escape_quotes
escape_quotes-quote c s h = rw h refl

escape_quotes-other :
    (c : Char) (s : String)
    → (String.◌∷◌ c "" == "'") ≡ false
    → escape_quotes (String.◌∷◌ c s) ≡ String.◌∷◌ c (escape_quotes s)
unfolding escape_quotes
escape_quotes-other c s h = rw h refl

-- The characters of an escaped quote.
abbrev escaped : String → String
escaped s = String.◌∷◌ "'" (String.◌∷◌ "\"" (String.◌∷◌ "'" (String.◌∷◌ "\"" (String.◌∷◌ "'" s))))

append-escaped : (s : String) → "'\"'\"'" <> s ≡ escaped s
append-escaped s =
    append.cons "'" "\"'\"'" s
    ∙ ap (String.◌∷◌ "'") (
        append.cons "\"" "'\"'" s
        ∙ ap (String.◌∷◌ "\"") (
            append.cons "'" "\"'" s
            ∙ ap (String.◌∷◌ "'") (
                append.cons "\"" "'" s
                ∙ ap (String.◌∷◌ "\"")
                    (append.cons "'" "" s ∙ ap (String.◌∷◌ "'") (append.nil s)))))

read_word-escaped :
    (s : String) → read_word in_single (escaped s) ≡ before "'" (read_word in_single s)
unfolding read_word
read_word-escaped s = ground arith

read_word-other :
    (c : Char) (s : String)
    → (String.◌∷◌ c "" == "'") ≡ false
    → read_word in_single (String.◌∷◌ c s) ≡ before c (read_word in_single s)
unfolding read_word
read_word-other c s h = ground (arith, h)

escaped-append : (s u : String) → escaped s <> u ≡ escaped (s <> u)
escaped-append s u =
    append.cons "'" (String.◌∷◌ "\"" (String.◌∷◌ "'" (String.◌∷◌ "\"" (String.◌∷◌ "'" s)))) u
    ∙ ap (String.◌∷◌ "'") (
        append.cons "\"" (String.◌∷◌ "'" (String.◌∷◌ "\"" (String.◌∷◌ "'" s))) u
        ∙ ap (String.◌∷◌ "\"") (
            append.cons "'" (String.◌∷◌ "\"" (String.◌∷◌ "'" s)) u
            ∙ ap (String.◌∷◌ "'") (
                append.cons "\"" (String.◌∷◌ "'" s) u
                ∙ ap (String.◌∷◌ "\"") (append.cons "'" s u))))

-- A text of one character is that of its character.
first : Char → String → Char
first c String.[] = c
first c (String.◌∷◌ d s) = d

is_quote : (c : Char) → (String.◌∷◌ c "" == "'") ≡ true → c ≡ "'"
unfolding first
is_quote c h = ap (first c) ((==_iff {A = String} (String.◌∷◌ c "") "'").0 h)

read_end : read_word in_single (escape_quotes "" <> "'\n") ≡ some ""
unfolding read_word escape_quotes
read_end = refl

read-escaped : (v : String) → read_word in_single (escape_quotes v <> "'\n") ≡ some v
read-escaped String.[] = read_end
read-escaped (String.◌∷◌ c s) = elim (Bool-cases (String.◌∷◌ c "" == "'")) [
  | inl quote ↦
      ap (λ t. read_word in_single (t <> "'\n"))
        (escape_quotes-quote c s quote ∙ append-escaped (escape_quotes s))
      ∙ ap (read_word in_single) (escaped-append (escape_quotes s) "'\n")
      ∙ read_word-escaped (escape_quotes s <> "'\n")
      ∙ ap (before "'") (read-escaped s)
      ∙ ap (λ d. some (String.◌∷◌ d s)) (sym (is_quote c quote))
  | inr other ↦
      ap (λ t. read_word in_single (t <> "'\n")) (escape_quotes-other c s other)
      ∙ ap (read_word in_single) (append.cons c (escape_quotes s) "'\n")
      ∙ read_word-other c (escape_quotes s <> "'\n") other
      ∙ ap (before c) (read-escaped s)
]

-- The word that is exported for a value.
abbrev pub word_of : String → String
unfolding escape_quotes
word_of v = String.◌∷◌ "'" (escape_quotes v <> "'\n")

-- The exports of an environment are a line for each of its variables, in which the word behind the equals
-- sign is read by a shell as exactly the variable's value, whatever quotes it has.
pub read_word-env_exports :
    (k v : String) (env : Dict String)
    → (env_exports ((k, v) ∷ env)
        ≡ ("export " <> (k <> String.◌∷◌ "=" (word_of v))) <> env_exports env)
      × (read_word bare (word_of v) ≡ some v)
unfolding env_exports read_word
read_word-env_exports k v env = (
  ap (λ w. ("export " <> (k <> w)) <> env_exports env)
      (append.cons "=" "'" (escape_quotes v <> "'\n")
        ∙ ap (String.◌∷◌ "=") (
            append.cons "'" "" (escape_quotes v <> "'\n")
            ∙ ap (String.◌∷◌ "'") (append.nil (escape_quotes v <> "'\n")))),
  read-escaped v,
)
