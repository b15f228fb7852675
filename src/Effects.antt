-- ===== src/Effects.antt =====
-- Code that calls the C library: it changes the library's state and returns, throws, ends the process
-- or runs into undefined behaviour.
use sysrepo_cpp.Base.{Text, ◌==◌, ◌∷◌, [], if◌then◌else◌, Option, none, some}
use sysrepo_cpp.Enums.Codes.{ErrorCode}

-- What can be thrown. The first two are declared in include/sysrepo-cpp/utils/exception.hpp;
-- `std_exception` is any other object of a class derived from std::exception, and `foreign` is
-- an object of any other type.
pub data Exn : Type 0 where
  error_with_code : Text → ErrorCode → Exn
  error : Text → Exn
  out_of_range : Text → Exn
  std_exception : Text → Exn
  foreign : Exn

-- How a call ends. `terminated` is std::terminate, and `undefined` is undefined behaviour.
pub data Result (A : Type 0) : Type 0 where
  ok : A → Result A
  throws : Exn → Result A
  terminated undefined : Result A

-- C++ code over the C library's state W.
abbrev pub Eff : Type 0 → Type 0 → Type 0
Eff W A = W → Result A × W

-- A function of the C library: it always returns.
abbrev pub Call : Type 0 → Type 0 → Type 0
Call W A = W → A × W

module _ {W A : Type 0} where
  abbrev pub pure : A → Eff W A
  pure a w = (ok a, w)

  abbrev pub throw : Exn → Eff W A
  throw e w = (throws e, w)

  abbrev pub terminate : Eff W A
  terminate w = (terminated, w)

  abbrev pub undefined_behaviour : Eff W A
  undefined_behaviour w = (undefined, w)

  abbrev pub call : Call W A → Eff W A
  call f w = (ok (f w).0, (f w).1)

  -- A function of the library that only reads its state.
  abbrev pub read : (W → A) → Eff W A
  read f w = (ok (f w), w)

  -- What may be null or missing, where the code takes it to be there.
  abbrev pub dereference : Option A → Eff W A
  dereference none w = (undefined, w)
  dereference (some a) w = (ok a, w)

  -- `catch (std::exception& ex)`: an object of another type passes through.
  abbrev pub handle_std : Result A × W → (Exn → Eff W A) → Result A × W
  handle_std (ok a, w) h = (ok a, w)
  handle_std (throws (error_with_code t c), w) h = h (error_with_code t c) w
  handle_std (throws (error t), w) h = h (error t) w
  handle_std (throws (out_of_range t), w) h = h (out_of_range t) w
  handle_std (throws (std_exception t), w) h = h (std_exception t) w
  handle_std (throws foreign, w) h = (throws foreign, w)
  handle_std (terminated, w) h = (terminated, w)
  handle_std (undefined, w) h = (undefined, w)

  abbrev pub catch_std : Eff W A → (Exn → Eff W A) → Eff W A
  catch_std m h w = handle_std (m w) h

  -- An exception that leaves a noexcept function, such as a destructor, ends the process.
  abbrev pub stop_exception : Result A × W → Result A × W
  stop_exception (ok a, w) = (ok a, w)
  stop_exception (throws e, w) = (terminated, w)
  stop_exception (terminated, w) = (terminated, w)
  stop_exception (undefined, w) = (undefined, w)

  abbrev pub noexcept : Eff W A → Eff W A
  noexcept m w = stop_exception (m w)

infixl 5 ◌>>=◌ ◌>>◌
abbrev pub after : {W A B : Type 0} → Result A × W → (A → Eff W B) → Result B × W
after (ok a, w) f = f a w
after (throws e, w) f = (throws e, w)
after (terminated, w) f = (terminated, w)
after (undefined, w) f = (undefined, w)

abbrev pub ◌>>=◌ : {W A B : Type 0} → Eff W A → (A → Eff W B) → Eff W B
◌>>=◌ m f w = after (m w) f

abbrev pub ◌>>◌ : {W B : Type 0} → Eff W (Unit {0}) → Eff W B → Eff W B
m >> k = m >>= λ _. k

-- std::exception::what(); a foreign object has none.
abbrev pub what : Exn → Text
what (error_with_code t c) = t
what (error t) = t
what (out_of_range t) = t
what (std_exception t) = t
what foreign = []

-- std::string::c_str(): the C library reads up to the first NUL character.
unfoldable pub c_str : Text → Text
c_str [] = []
c_str (c ∷ s) = if c == 0 then [] else c ∷ c_str s

-- `x ? x->c_str() : nullptr`
unfoldable pub c_str_or_null : Option Text → Option Text
c_str_or_null none = none
c_str_or_null (some s) = some (c_str s)
