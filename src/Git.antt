-- ===== src/Git.antt =====
-- pkg/service/git/git.go: the configurations of a repository. The clone, the search by a pattern and
-- the reading of a file are arguments; temporary directories are left out.
use melange.Prelude.{
  List, [], ◌∷◌, Option, none, some, String, Result, ok, err, if◌then◌else◌, ◌==◌, string_eq,
  length, nat_beq,
}
use melange.Prelude.Text.{join_path}
use melange.Types.{GitSource}

pub record Source : Type 0 where
  pub repository : String
  pub ref : String
  pub pattern : String
  pub path : String

unfoldable pub new_source_from_git_source : Option GitSource → Option Source
new_source_from_git_source none = none
new_source_from_git_source (some g) =
    some (record { repository = g.repository; ref = g.ref; pattern = g.pattern; path = g.path })

pub data GitError : Type 0 where
  nil_source repository_required : GitError
  cloning finding : String → String → GitError
  no_config_files : String → String → GitError
  reading : String → String → GitError

unfoldable pub validate_source : Option GitSource → Option GitError
validate_source none = some nil_source
validate_source (some g) = if g.repository == "" then some repository_required else none

-- What a clone asks for: the default branch, a branch or a tag.
pub data Reference : Type 0 where
  default : Reference
  branch tag : String → Reference

-- The library's calls: a clone gives a directory, the checkout of a revision in it is tried and its
-- failure is ignored.
pub record Calls : Type 0 where
  pub plain_clone : String → Reference → Result String String
  pub checkout_revision : String → String → String
  pub glob : String → Result String (List String)
  pub read_file : String → Result String String

unfoldable pub clone : Calls → Source → Result GitError String
clone c s =
    if s.ref == ""
    then elim (c.plain_clone s.repository default) [
      | ok dir ↦ ok dir
      | err e ↦ err (cloning s.repository e)
    ]
    else elim (c.plain_clone s.repository (branch s.ref)) [
      | ok dir ↦ ok (c.checkout_revision dir s.ref)
      | err _ ↦ elim (c.plain_clone s.repository (tag s.ref)) [
        | ok dir ↦ ok (c.checkout_revision dir s.ref)
        | err e ↦ err (cloning s.repository e)
      ]
    ]

abbrev pub pattern_or_default : Source → String
pattern_or_default s = if s.pattern == "" then "*.yaml" else s.pattern

unfoldable pub find_configs : Calls → Source → String → Result GitError (List String)
unfolding join_path
find_configs c s dir =
    let search_path = if s.path == "" then dir else join_path dir s.path in
    elim (c.glob (join_path search_path (pattern_or_default s))) [
      | ok paths ↦ ok paths
      | err e ↦ err (finding (pattern_or_default s) e)
    ]

unfoldable pub read_all : Calls → List String → Result GitError (List String)
read_all c [] = ok []
read_all c (path ∷ paths) =
    let rest = read_all c paths in
    elim (c.read_file path) [
      | err e ↦ err (reading path e)
      | ok text ↦ elim rest [ err e ↦ err e | ok texts ↦ ok (text ∷ texts) ]
    ]

unfoldable pub load_configs : Calls → Source → Result GitError (List String)
unfolding clone find_configs read_all
load_configs c s = elim (clone c s) [
  | err e ↦ err e
  | ok dir ↦ elim (find_configs c s dir) [
    | err e ↦ err e
    | ok paths ↦
        if nat_beq (length paths) 0
        then err (no_config_files (pattern_or_default s) s.path)
        else read_all c paths
  ]
]
