-- ===== src/Config/DotEnv.antt =====
-- What LoadDotEnv makes of a variable.
use helix_gateway.Base.{
  Text, text_eq, text_eq_iff, is_empty, ◌==◌, ◌||◌, true, List, [], ◌∷◌, Option, none, some, Table,
  lookup-insert, any, refl, ◌≡◌, arith, Option-cases, Bool-cases, inl, inr, if◌then◌else◌,
}
use helix_gateway.Config.{getenv, setenv, split, assignment, load_line, load_lines, load_dot_env}

-- The value that an assignment gives to a variable: empty if it is of another one, or has a zero
-- byte.
abbrev value_in : Text → Option (Text × Text) → Text
value_in k none = []
value_in k (some (j, v)) =
    if text_eq j k then (if any (λ c. c == 0) j || any (λ c. c == 0) v then [] else v) else []

abbrev pub given : Text → Text → Text
given k line = value_in k (assignment line)

-- The first value that is not empty.
abbrev pub first_given : Text → List Text → Text
first_given k [] = []
first_given k (l ∷ ls) = if is_empty (given k l) then first_given k ls else given k l

is_empty-nil : (s : Text) → is_empty s ≡ true → s ≡ []
is_empty-nil [] h = refl
is_empty-nil (c ∷ s) h = cc

getenv-setenv :
    (k j v : Text) (e : Table Text)
    → getenv k (setenv j v e) ≡ (
        if any (λ c. c == 0) j || any (λ c. c == 0) v
        then getenv k e
        else (if text_eq j k then v else getenv k e))
unfolding getenv setenv
getenv-setenv k j v e = elim (Bool-cases (any (λ c. c == 0) j || any (λ c. c == 0) v)) [
  | inl bad ↦ rw bad refl
  | inr good ↦ rw good (
      rw (lookup-insert j k v e, getenv)
        (elim (Bool-cases (text_eq j k)) [ inl t ↦ rw t refl | inr f ↦ rw f refl ]))
]

-- The environment after the assignment of a line.
assigned-getenv :
    (k j v : Text) (e : Table Text)
    → getenv k (if is_empty (getenv j e) then setenv j v e else e) ≡ (
        if is_empty (getenv k e)
        then (if text_eq j k
            then (if any (λ c. c == 0) j || any (λ c. c == 0) v then [] else v)
            else [])
        else getenv k e)
assigned-getenv k j v e =
    ground (arith, text_eq_iff j k, getenv-setenv k j v e, is_empty-nil (getenv k e))

load_line-getenv :
    (k line : Text) (e : Table Text)
    → getenv k (load_line line e) ≡ (if is_empty (getenv k e) then given k line else getenv k e)
unfolding load_line
load_line-getenv k line e = elim (Option-cases (assignment line)) [
  | inl a ↦ rw (a, load_line) (ground (arith, is_empty-nil (getenv k e)))
  | inr ((j, v), a) ↦ rw (a, load_line) (assigned-getenv k j v e)
]

-- The first text that is not empty, among three.
first_of_three :
    (s g r : Text)
    → (if is_empty (if is_empty s then g else s) then r else (if is_empty s then g else s))
      ≡ (if is_empty s then (if is_empty g then r else g) else s)
first_of_three [] g r = refl
first_of_three (c ∷ s) g r = refl

load_lines-getenv :
    (k : Text) (ls : List Text) (e : Table Text)
    → getenv k (load_lines ls e) ≡ (if is_empty (getenv k e) then first_given k ls else getenv k e)
unfolding load_lines
load_lines-getenv k [] e = ground (arith, is_empty-nil (getenv k e))
load_lines-getenv k (l ∷ ls) e =
    rw (load_lines-getenv k ls (load_line l e), load_line-getenv k l e)
      (first_of_three (getenv k e) (given k l) (first_given k ls))

-- After LoadDotEnv, a variable that was set to a text that is not empty has its value still, and any
-- other one the first value that is not empty among those that the lines of the file give it.
pub load_dot_env-getenv :
    (k bytes : Text) (e : Table Text)
    → getenv k (load_dot_env (some bytes) e)
      ≡ (if is_empty (getenv k e) then first_given k (split 10 bytes) else getenv k e)
unfolding load_dot_env
load_dot_env-getenv k bytes e = load_lines-getenv k (split 10 bytes) e
