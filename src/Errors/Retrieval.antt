-- ===== src/Errors/Retrieval.antt =====
-- What impl_getErrors returns for each class of errors, and when it throws.
use sysrepo_cpp.Base.{
  ℕ, ◌≡◌, refl, List, [], ◌∷◌, ◌++◌, Option, none, some, codes, arith, ◌==◌, not, if◌then◌else◌,
  Bool, Text, map, has_value, Option-cases, inl, inr,
}
use sysrepo_cpp.Effects.{Exn, Result, ok, throws, error_with_code}
use sysrepo_cpp.Enums.Codes.{as_error_code}
use sysrepo_cpp.Capi.{Sysrepo, SrError}
use sysrepo_cpp.Errors.{
  ErrorInfo, NetconfErrorInfo, error_infos, is_netconf, netconf_error_info, error_head,
  throw_if_error_bare, get_errors, netconf_loop, get_netconf_errors,
}

-- The exception of a result code that is not OK, thrown while errors are retrieved.
abbrev pub retrieval_failure : ℕ → Exn
retrieval_failure res =
    error_with_code (error_head res (codes "Couldn't retrieve errors")) (as_error_code res)

abbrev pub entries : Option (List SrError) → List SrError
entries none = []
entries (some es) = es

pub error_infos-append :
    (es fs : List SrError) → error_infos (es ++ fs) ≡ error_infos es ++ error_infos fs
unfolding error_infos
error_infos-append [] fs = refl
error_infos-append (e ∷ es) fs = ground (arith, error_infos-append es fs)

-- Whether an entry has a message, and what it tells.
abbrev pub has_message : SrError → Bool
has_message e = has_value e.message

abbrev pub message_of : Option Text → Text
message_of none = []
message_of (some m) = m

abbrev pub info_of : SrError → ErrorInfo
info_of e = record { code = as_error_code e.err_code; error_message = message_of e.message }

abbrev pub filter_by {ℓ} : {A : Type ℓ} → (A → Bool) → List A → List A
filter_by test [] = []
filter_by test (x ∷ xs) = if test x then x ∷ filter_by test xs else filter_by test xs

error_infos_lem : (es : List SrError) → error_infos es ≡ map info_of (filter_by has_message es)
unfolding error_infos
error_infos_lem [] = refl
error_infos_lem (e ∷ es) = elim (Option-cases e.message) [
  | inl absent ↦ ground (arith, error_infos_lem es)
  | inr (m, present) ↦ ground (arith, error_infos_lem es)
]

module _ {W Node : Type 0} (api : Sysrepo W Node) where
  -- The result code of the first NETCONF entry whose details cannot be read.
  abbrev pub first_failure : List SrError → W → Option ℕ
  first_failure [] w = none
  first_failure (e ∷ es) w =
      let later = first_failure es w in
      let res = (api.sr_err_get_netconf_error e w).0 in
      if not (is_netconf e.error_format) then later else if res == 0 then later else some res

  -- The details of the entries whose format is NETCONF, in their order.
  abbrev pub netconf_entries : List SrError → W → List NetconfErrorInfo
  netconf_entries [] w = []
  netconf_entries (e ∷ es) w =
      let later = netconf_entries es w in
      if not (is_netconf e.error_format)
      then later
      else netconf_error_info (api.sr_err_get_netconf_error e w).1 ∷ later

  -- How the retrieval of the NETCONF entries ends.
  abbrev pub netconf_outcome : List SrError → W → Result (List NetconfErrorInfo)
  netconf_outcome es w = elim (first_failure es w) [
    | none ↦ ok (netconf_entries es w)
    | some res ↦ throws (retrieval_failure res)
  ]

  netconf_loop_lem : (es : List SrError) (w : W) → netconf_loop api es w ≡ (netconf_outcome es w, w)
  unfolding netconf_loop throw_if_error_bare
  netconf_loop_lem [] w = refl
  netconf_loop_lem (e ∷ es) w = ground (arith, netconf_loop_lem es w)

  pub get_errors_infos :
      (sess : ℕ) (w : W)
      → get_errors api sess w ≡ (
        if (api.sr_session_get_error sess w).0 == 0
            then ok (error_infos (entries (api.sr_session_get_error sess w).1))
            else throws (retrieval_failure (api.sr_session_get_error sess w).0),
        w,
      )
  unfolding get_errors
  get_errors_infos sess w = ground arith

  -- Retrieving the generic errors changes nothing. It throws the failure's code when the C library
  -- cannot hand the errors over; otherwise it returns, for exactly the entries that have a message
  -- and in their order, the code and the message; and nothing when the C library has no errors.
  pub get_errors_lem :
      (sess : ℕ) (w : W)
      → get_errors api sess w ≡ (
        if (api.sr_session_get_error sess w).0 == 0
            then ok
                (map info_of (filter_by has_message (entries (api.sr_session_get_error sess w).1)))
            else throws (retrieval_failure (api.sr_session_get_error sess w).0),
        w,
      )
  get_errors_lem sess w =
      rw (← error_infos_lem (entries (api.sr_session_get_error sess w).1)) (get_errors_infos sess w)

  -- Retrieving the NETCONF errors changes nothing. It throws when the C library cannot hand the
  -- errors over, or cannot read the details of one whose format is NETCONF, with the code of the
  -- first failure; otherwise it returns the details of exactly the entries of that format, in their
  -- order.
  pub get_netconf_errors_lem :
      (sess : ℕ) (w : W)
      → get_netconf_errors api sess w ≡ (
        if (api.sr_session_get_error sess w).0 == 0
            then netconf_outcome (entries (api.sr_session_get_error sess w).1) w
            else throws (retrieval_failure (api.sr_session_get_error sess w).0),
        w,
      )
  unfolding get_netconf_errors
  get_netconf_errors_lem sess w =
      ground (arith, netconf_loop_lem (entries (api.sr_session_get_error sess w).1) w)
