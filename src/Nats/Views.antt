-- ===== src/Nats/Views.antt =====
-- Views that end where C sees their end.
use natsclient_cpp.Base.{
  ◌≡◌, refl, ◌≢◌, Option, none, some, [], ◌∷◌, ◌++◌, Text, length, arith, take-append,
}
use mathlib.Core.List.{append-nil}
use natsclient_cpp.Nats.Calls.{CString}
use natsclient_cpp.Nats.Runs.{ok}
use natsclient_cpp.Nats.Strings.{View, text, before_nul, c_string}

-- No byte of the text is NUL.
abbrev pub NoNul : Text → Type 0
NoNul [] = Unit
NoNul (c ∷ t) = (c ≢ 0) × NoNul t

-- The view shows `t`, and the allocation goes on with `rest`.
abbrev pub view : Text → Text → View
view t rest = record { bytes = some (t ++ rest); size = length t }

-- A string literal, or the text of a `std::string`, as a view: a NUL follows it.
abbrev pub literal : Text → View
literal t = view t (0 ∷ [])

pub text-view : (t rest : Text) → text (view t rest) ≡ t
unfolding text
text-view t rest = take-append t rest

pub before_nul-append :
    (t more rest : Text)
    → NoNul t
    → NoNul more
    → before_nul (t ++ (more ++ 0 ∷ rest)) ≡ some (t ++ more)
unfolding before_nul
before_nul-append [] [] rest h k = refl
before_nul-append [] (c ∷ more) rest h k = ground (arith, before_nul-append [] more rest tt k.1)
before_nul-append (c ∷ t) more rest h k = ground (arith, before_nul-append t more rest h.1 k)

-- C reads on behind the view, up to the first NUL.
pub c_string-view :
    {S : Type 0} (t more rest : Text) (s : S)
    → NoNul t
    → NoNul more
    → c_string (view t (more ++ 0 ∷ rest)) s ≡ ok (some (t ++ more)) s
unfolding c_string
c_string-view t more rest s h k = rw (before_nul-append t more rest h k, c_string)

-- What C reads at `data()`; nothing if the text does not end.
unfoldable pub c_text : View → Option CString
unfolding before_nul
c_text v = elim v.bytes [
  | none ↦ some none
  | some b ↦ elim (before_nul b) [ none ↦ none | some t ↦ some (some t) ]
]

pub c_text-view :
    (t more rest : Text)
    → NoNul t
    → NoNul more
    → c_text (view t (more ++ 0 ∷ rest)) ≡ some (some (t ++ more))
unfolding c_text
c_text-view t more rest h k = rw (before_nul-append t more rest h k, c_text)

pub c_string-literal :
    {S : Type 0} (t : Text) (s : S) → NoNul t → c_string (literal t) s ≡ ok (some t) s
c_string-literal t s h = rw (append-nil t) at (c_string-view t [] [] s h tt)
