-- ===== src/Nats/Strings.antt =====
-- `std::string_view` and `std::span`: a pointer to data and a size.
use natsclient_cpp.Base.{
  ℕ, Bool, Option, none, some, [], ◌∷◌, ◌++◌, Text, length, take, ◌==◌, if◌then◌else◌,
}
use natsclient_cpp.Nats.Calls.{CString, Data}
use natsclient_cpp.Nats.Runs.{M, undefined, pure}

-- `data` is what lies at `data()`: the whole allocation from there on, which may go on behind the
-- view. C++ wants `size` bytes of it to be there.
pub record View : Type 0 where
  pub bytes : Data
  pub size : ℕ

-- The characters of the view.
unfoldable pub text : View → Text
text v = elim v.bytes [ none ↦ [] | some b ↦ take v.size b ]

unfoldable pub is_empty : View → Bool
is_empty v = v.size == 0

-- The bytes before the first NUL, if there is one.
unfoldable pub before_nul : Text → Option Text
before_nul [] = none
before_nul (c ∷ b) =
    let rest = before_nul b in
    if c == 0 then some [] else elim rest [ none ↦ none | some t ↦ some (c ∷ t) ]

module _ {S : Type 0} where
  -- C reads a text at the pointer `data()`: to the first NUL, and the size is not known to it.
  -- Without a NUL in the allocation it reads past the end.
  unfoldable pub c_string : View → M S CString
  c_string v = elim v.bytes [
    | none ↦ pure none
    | some b ↦ elim (before_nul b) [ none ↦ (λ _. undefined) | some t ↦ pure (some t) ]
  ]

  -- `string_view(const char*)`: the length is that of the text, and NULL has none.
  unfoldable pub string_view : CString → M S View
  string_view none = λ _. undefined
  string_view (some t) = pure (record { bytes = some (t ++ 0 ∷ []); size = length t })
