-- ===== src/Prelude/Text.antt =====
-- What the program uses of Go's packages `strings` and `path/filepath`, on texts of ASCII characters.
use Prim.Native.Nat.{ℕ, zero, suc, ◌-◌}
use Prim.Native.Char.{Char, code}
use Prim.Native.String.{String}
pub use Prim.Native.String.{◌++◌ as ◌<>◌}
use mathlib.Core.Bool.{Bool, true, false, ◌&&◌, ◌||◌}
use mathlib.Core.Path.{◌≡◌, refl}
use mathlib.Core.List.{List, [], ◌∷◌, reverse}
use melange.Prelude.Tests.{nat_beq, if◌then◌else◌, ◌==◌, string_eq}

abbrev char_beq : Char → Char → Bool
char_beq c d = nat_beq (code c) (code d)

-- `len`
unfoldable pub text_length : String → ℕ
text_length String.[] = 0
text_length (String.◌∷◌ c s) = suc (text_length s)

-- `s[:n]` and `s[n:]`
unfoldable pub text_take : ℕ → String → String
text_take zero s = ""
text_take (suc n) String.[] = ""
text_take (suc n) (String.◌∷◌ c s) = String.◌∷◌ c (text_take n s)

unfoldable pub text_drop : ℕ → String → String
text_drop zero s = s
text_drop (suc n) String.[] = ""
text_drop (suc n) (String.◌∷◌ c s) = text_drop n s

unfoldable pub has_prefix : String → String → Bool
has_prefix s String.[] = true
has_prefix String.[] (String.◌∷◌ c p) = false
has_prefix (String.◌∷◌ d s) (String.◌∷◌ c p) = char_beq d c && has_prefix s p

unfoldable pub has_suffix : String → String → Bool
has_suffix String.[] p = "" == p
has_suffix (String.◌∷◌ c s) p = String.◌∷◌ c s == p || has_suffix s p

unfoldable pub trim_prefix : String → String → String
unfolding has_prefix text_drop text_length
trim_prefix s p = if has_prefix s p then text_drop (text_length p) s else s

unfoldable pub trim_suffix : String → String → String
unfolding has_suffix text_take text_length
trim_suffix s p = if has_suffix s p then text_take (text_length s - text_length p) s else s

first_char : Char → List String → List String
first_char c [] = String.◌∷◌ c "" ∷ []
first_char c (s ∷ rest) = String.◌∷◌ c s ∷ rest

unfoldable pub split : String → Char → List String
unfolding first_char
split String.[] sep = "" ∷ []
split (String.◌∷◌ c s) sep =
    let rest = split s sep in if char_beq c sep then "" ∷ rest else first_char c rest

-- `strings.Join`
unfoldable pub join_texts : List String → String → String
join_texts [] sep = ""
join_texts (s ∷ []) sep = s
join_texts (s ∷ t ∷ rest) sep = s <> (sep <> join_texts (t ∷ rest) sep)

-- What `..` does to the parts before it, the last one in front.
go_up : Bool → List String → List String
go_up rooted [] = if rooted then [] else ".." ∷ []
go_up rooted (top ∷ below) = if top == ".." then ".." ∷ top ∷ below else below

-- The parts of a path without `.` and `..`; `seen` holds the parts before, the last one in front.
clean_parts : Bool → List String → List String → List String
clean_parts rooted seen [] = reverse seen
clean_parts rooted seen (p ∷ ps) =
    clean_parts rooted
      (if p == "" || p == "." then seen else if p == ".." then go_up rooted seen else p ∷ seen) ps

unfoldable pub clean_path : String → String
unfolding clean_parts go_up split join_texts has_prefix
clean_path s =
    let rooted = has_prefix s "/" in
    let body = join_texts (clean_parts rooted [] (split s "/")) "/" in
    if rooted then "/" <> body else if body == "" then "." else body

-- `filepath.Join` of two paths
unfoldable pub join_path : String → String → String
unfolding clean_path
join_path a b =
    if a == ""
    then if b == "" then "" else clean_path b
    else clean_path (if b == "" then a else a <> ("/" <> b))

unfoldable pub is_abs : String → Bool
unfolding has_prefix
is_abs s = has_prefix s "/"

runs : join_path "/home/build" "a/../b//c" ≡ "/home/build/b/c"
unfolding join_path
runs = refl

trims : trim_suffix (trim_prefix "/api/x/metrics" "/api/") "/metrics" ≡ "x"
unfolding trim_suffix trim_prefix
trims = refl
