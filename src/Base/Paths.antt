-- ===== src/Base/Paths.antt =====
-- What a path is to the standard library's comparison: its components, on Unix (`Path::components`,
-- by which `PathBuf` is compared and hashed).
use Prim.Native.Char.{code}
use Prim.Native.String.{String}
use mathlib.Core.Bool.{Bool, true, false, ◌&&◌, ◌||◌}
use mathlib.Core.Path.{◌≡◌}
use mathlib.Core.Logic.{◌↔◌}
use mathlib.Core.List.{List, [], ◌∷◌}
use native.Mathlib.Omega.{arith}
use text.Mathlib.Text.{◌==◌ as ◌=s=◌}
use text.Mathlib.TextEquality.{eq_iff}
use chrondb.Base.Tests.{◌==◌, if◌then◌else◌}

-- `PathBuf`, as its components.
abbrev pub PathBuf : Type 0
PathBuf = List String

abbrev pub same_path : PathBuf → PathBuf → Bool
same_path [] [] = true
same_path [] (d ∷ ds) = false
same_path (c ∷ cs) [] = false
same_path (c ∷ cs) (d ∷ ds) = c =s= d && same_path cs ds

pub same_path_iff : (a b : PathBuf) → (same_path a b ≡ true) ↔ (a ≡ b)
same_path_iff [] [] = ground arith
same_path_iff [] (d ∷ ds) = ground arith
same_path_iff (c ∷ cs) [] = ground arith
same_path_iff (c ∷ cs) (d ∷ ds) = ground (arith, eq_iff c d, same_path_iff cs ds)

-- A character before the first of some names.
unfoldable pub prefixed : List String → (String → String) → List String
prefixed [] f = f "" ∷ []
prefixed (n ∷ ns) f = f n ∷ ns

-- The texts between the separators.
unfoldable pub split_names : String → List String
unfolding prefixed
split_names String.[] = "" ∷ []
split_names (String.◌∷◌ c s) =
    let rest = split_names s in
    if code c == b'/' then "" ∷ rest else prefixed rest (λ n. String.◌∷◌ c n)

-- Neither an empty name nor a `.` is a component.
unfoldable pub normal_names : List String → List String
normal_names [] = []
normal_names (n ∷ ns) =
    let rest = normal_names ns in if n =s= "" || n =s= "." then rest else n ∷ rest

-- The root stands first, and so does a `.` at the head of a relative path.
unfoldable pub from_names : List String → PathBuf
unfolding normal_names
from_names [] = []
from_names (n ∷ []) = if n =s= "" then [] else if n =s= "." then "." ∷ [] else n ∷ []
from_names (n ∷ m ∷ ns) =
    let rest = normal_names (m ∷ ns) in
    if n =s= "" then "/" ∷ rest else if n =s= "." then "." ∷ rest else n ∷ rest

-- `PathBuf::from(path)`
unfoldable pub path_buf : String → PathBuf
unfolding split_names from_names
path_buf path = from_names (split_names path)
