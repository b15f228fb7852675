-- ===== src/Errors/Throwing.antt =====
-- What throwIfError throws, and what its message holds.
use mathlib.Core.List.{append_assoc}
use sysrepo_cpp.Base.{
  inl, inr, Bool-cases, Option-cases, ◌⊎◌, true, false, ℕ, ◌≡◌, ◌≢◌, refl, ap, ◌∙◌, List, [], ◌∷◌,
  ◌++◌, Option, none, some, Text, codes, arith, ◌==◌, if◌then◌else◌,
}
use sysrepo_cpp.Effects.{Exn, stop_exception, terminated, Result, ok, throws, error_with_code}
use sysrepo_cpp.Enums.Codes.{as_error_code, stringify}
use sysrepo_cpp.Capi.{Sysrepo, SrError}
use sysrepo_cpp.Errors.{
  ErrorInfo, error_infos, error_head, error_lines, netconf_lines, print_error_info, session_lines,
  throw_if_error,
}
use sysrepo_cpp.Errors.Retrieval.{
  retrieval_failure, entries, first_failure, netconf_entries, get_errors_infos,
  get_netconf_errors_lem, error_infos-append,
}

module _ {W Node : Type 0} (api : Sysrepo W Node) where
  -- The error entries that the C library hands over.
  abbrev pub session_errors : ℕ → W → List SrError
  session_errors sess w = entries (api.sr_session_get_error sess w).1

  -- The code of the first call that fails while the errors are retrieved.
  abbrev pub retrieval_code : Option ℕ → W → Option ℕ
  retrieval_code none w = none
  retrieval_code (some sess) w =
      let res = (api.sr_session_get_error sess w).0 in
      if res == 0 then first_failure api (session_errors sess w) w else some res

  abbrev pub session_text : Option ℕ → W → Text
  session_text none w = []
  session_text (some sess) w =
      error_lines (error_infos (session_errors sess w))
      ++ netconf_lines (netconf_entries api (session_errors sess w) w)

  abbrev pub throw_outcome : ℕ → Text → Option ℕ → W → Result (Unit {0})
  throw_outcome code msg sess w = elim (retrieval_code sess w) [
    | none ↦
        throws (error_with_code (error_head code msg ++ session_text sess w) (as_error_code code))
    | some res ↦ throws (retrieval_failure res)
  ]

  session_lines_lem :
      (sess : Option ℕ) (w : W)
      → session_lines api sess w ≡ (
        elim (retrieval_code sess w) [
          | none ↦ ok (session_text sess w)
          | some res ↦ throws (retrieval_failure res)
        ],
        w,
      )
  unfolding session_lines
  session_lines_lem none w = refl
  session_lines_lem (some sess) w =
      ground (arith, get_errors_infos api sess w, get_netconf_errors_lem api sess w)

  -- A result code OK makes throwIfError return. Any other code makes it throw: an exception with that
  -- code and with the texts of all errors of the session, if these can be retrieved, and else one
  -- with the code of the failed retrieval. The state of the C library is left alone.
  pub throw_if_error_lem :
      (code : ℕ) (msg : Text) (sess : Option ℕ) (w : W)
      → throw_if_error api code msg sess w
        ≡ (if code == 0 then ok tt else throw_outcome code msg sess w, w)
  unfolding throw_if_error
  throw_if_error_lem code msg sess w = ground (arith, session_lines_lem sess w)

error_lines-append :
    (es fs : List ErrorInfo) → error_lines (es ++ fs) ≡ error_lines es ++ error_lines fs
unfolding error_lines
error_lines-append [] fs = refl
error_lines-append (e ∷ es) fs = simp (error_lines-append es fs, append_assoc)

error_infos-some :
    (fs : List SrError) (e : SrError) (m : Text)
    → e.message ≡ some m
    → error_infos (e ∷ fs)
      ≡ record { code = as_error_code e.err_code; error_message = m } ∷ error_infos fs
unfolding error_infos
error_infos-some fs e m h = rw (h, error_infos)

-- The line of one entry.
abbrev pub entry_line : Text → SrError → Text
entry_line m e =
    codes "\n " ++ (m ++ (codes " (" ++ (stringify (as_error_code e.err_code) ++ codes ")")))

error_lines_middle :
    (es fs : List SrError) (e : SrError) (m : Text)
    → e.message ≡ some m
    → error_lines (error_infos (es ++ e ∷ fs))
      ≡ error_lines (error_infos es) ++ (entry_line m e ++ error_lines (error_infos fs))
unfolding error_lines print_error_info
error_lines_middle es fs e m h =
    rw (error_infos-append es (e ∷ fs), error_infos-some fs e m h)
      (simp (error_lines-append, append_assoc))

error_lines_split :
    (all es fs : List SrError) (e : SrError) (m rest : Text)
    → all ≡ es ++ e ∷ fs
    → e.message ≡ some m
    → error_lines (error_infos all) ++ rest
      ≡ error_lines (error_infos es) ++ (entry_line m e ++ (error_lines (error_infos fs) ++ rest))
error_lines_split all es fs e m rest split h =
    ap (λ (t : List SrError). error_lines (error_infos t) ++ rest) split
    ∙ (ap (λ (t : Text). t ++ rest) (error_lines_middle es fs e m h) ∙ simp append_assoc)

module _ {W Node : Type 0} (api : Sysrepo W Node) where
  -- When the errors of the session can be retrieved, an exception for a code that is not OK has that
  -- code, and its message has, behind the message of the caller and the name of the code, a line with
  -- the text and the code's name of every error of the session that has a message, wherever it stands
  -- among them.
  pub throw_if_error_reports :
      (code : ℕ) (msg : Text) (sess : ℕ) (w : W) (es fs : List SrError) (e : SrError) (m : Text)
      → code ≢ 0
      → retrieval_code api (some sess) w ≡ none
      → session_errors api sess w ≡ es ++ e ∷ fs
      → e.message ≡ some m
      → (before : Text) × (behind : Text) × (throw_if_error api code msg (some sess) w ≡ (
        throws (
            error_with_code
              (error_head code msg ++ (before ++ (entry_line m e ++ behind)))
              (as_error_code code)),
        w,
      ))
  throw_if_error_reports code msg sess w es fs e m ne ready split h = (
    error_lines (error_infos es),
    error_lines (error_infos fs)
        ++ netconf_lines (netconf_entries api (session_errors api sess w) w),
    ground (
      arith,
      throw_if_error_lem api code msg (some sess) w,
      error_lines_split (session_errors api sess w) es fs e m
          (netconf_lines (netconf_entries api (session_errors api sess w) w)) split h,
    ),
  )

module _ {W Node : Type 0} (api : Sysrepo W Node) where
  stopped_outcome :
      (code : ℕ) (msg : Text) (sess : Option ℕ) (w : W)
      → stop_exception (throw_outcome api code msg sess w, w) ≡ (terminated, w)
  stopped_outcome code msg sess w = ground arith

  -- In a noexcept function a code that is not OK ends the process.
  pub stop_exception-throw_if_error :
      (code : ℕ) (msg : Text) (sess : Option ℕ) (w : W)
      → stop_exception (throw_if_error api code msg sess w)
        ≡ (if code == 0 then ok tt else terminated, w)
  stop_exception-throw_if_error code msg sess w = elim (Bool-cases (code == 0)) [
    | inl e ↦ rw (throw_if_error_lem, e) refl
    | inr e ↦ rw (throw_if_error_lem, e) (stopped_outcome code msg sess w)
  ]

  -- If throwIfError returns, the code is OK.
  pub throw_if_error-ok :
      (code : ℕ) (msg : Text) (sess : Option ℕ) (w : W)
      → (throw_if_error api code msg sess w).0 ≡ ok tt
      → code ≡ 0
  throw_if_error-ok code msg sess w h = ground (arith, throw_if_error_lem api code msg sess w)

  -- With the code OK throwIfError returns, and with any other code it throws.
  pub throw_if_error_cases :
      (code : ℕ) (msg : Text) (sess : Option ℕ) (w : W)
      → (((code == 0) ≡ true) × (throw_if_error api code msg sess w ≡ (ok tt, w)))
        ⊎ ((x : Exn) × ((code == 0) ≡ false) × (throw_if_error api code msg sess w ≡ (throws x, w)))
  throw_if_error_cases code msg sess w = elim (Bool-cases (code == 0)) [
    | inl e ↦ inl (e, rw (throw_if_error_lem, e) refl)
    | inr e ↦ elim (Option-cases (retrieval_code api sess w)) [
      | inl none_failed ↦ inr (
        error_with_code (error_head code msg ++ session_text api sess w) (as_error_code code),
        e,
        ground (arith, throw_if_error_lem api code msg sess w),
      )
      | inr (res, failed) ↦
          inr (retrieval_failure res, e, ground (arith, throw_if_error_lem api code msg sess w))
    ]
  ]
