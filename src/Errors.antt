-- ===== src/Errors.antt =====
-- src/utils/exception.cpp, and the error functions of src/Session.cpp: a result code of the C library
-- becomes an exception that carries the code and the texts of all errors of the session.
pub mod Retrieval
pub mod Throwing
use sysrepo_cpp.Base.{
  ℕ, ◌++◌, List, [], ◌∷◌, Option, none, some, Bool, false, map, Text, codes, text_eq, ◌==◌,
  if◌then◌else◌, not,
}
use sysrepo_cpp.Effects.{Eff, pure, throw, read, ◌>>=◌, ◌>>◌, error_with_code}
use sysrepo_cpp.Enums.Codes.{ErrorCode, as_error_code, stringify}
use sysrepo_cpp.Capi.{Sysrepo, SrError, NetconfDetails}

pub record ErrorInfo : Type 0 where
  pub code : ErrorCode
  pub error_message : Text

pub record InfoElement : Type 0 where
  pub element : Text
  pub value : Text

pub record NetconfErrorInfo : Type 0 where
  pub type : Text
  pub tag : Text
  pub app_tag : Option Text
  pub path : Option Text
  pub message : Text
  pub info_elements : List InfoElement

-- operator<< of an ErrorInfo
unfoldable pub print_error_info : ErrorInfo → Text
print_error_info e = e.error_message ++ (codes " (" ++ (stringify e.code ++ codes ")"))

abbrev pub print_part : Option Text → Text
print_part none = []
print_part (some t) = t ++ codes ": "

unfoldable pub print_info_elements : List InfoElement → Text
print_info_elements [] = []
print_info_elements (i ∷ is) =
    codes " \""
    ++ (i.element ++ (codes "\": value \"" ++ (i.value ++ (codes "\"" ++ print_info_elements is))))

-- operator<< of a NetconfErrorInfo
unfoldable pub print_netconf_error_info : NetconfErrorInfo → Text
print_netconf_error_info e =
    e.type
    ++ (codes ": "
        ++ (e.tag
            ++ (codes ": "
                ++ (print_part e.app_tag
                    ++ (print_part e.path ++ (e.message ++ print_info_elements e.info_elements))))))

-- `oss << msg << ": " << static_cast<ErrorCode>(code)`
unfoldable pub error_head : ℕ → Text → Text
error_head code msg = msg ++ (codes ": " ++ stringify (as_error_code code))

-- throwIfError without a session.
unfoldable pub throw_if_error_bare : {W : Type 0} → ℕ → Text → Eff W (Unit {0})
throw_if_error_bare code msg =
    if code == 0
    then pure tt
    else throw (error_with_code (error_head code msg) (as_error_code code))

-- The loop of impl_getErrors<ErrorInfo>: an entry with no message is skipped.
unfoldable pub error_infos : List SrError → List ErrorInfo
error_infos [] = []
error_infos (e ∷ es) = elim e.message [
  | none ↦ error_infos es
  | some m ↦ record { code = as_error_code e.err_code; error_message = m } ∷ error_infos es
]

abbrev pub is_netconf : Option Text → Bool
is_netconf none = false
is_netconf (some format) = text_eq format (codes "NETCONF")

abbrev pub info_pairs : Option (List (Text × Text)) → List InfoElement
info_pairs none = []
info_pairs (some pairs) = map (λ p. record { element = p.0; value = p.1 }) pairs

abbrev pub netconf_error_info : NetconfDetails → NetconfErrorInfo
netconf_error_info d = record {
  type = d.type;
  tag = d.tag;
  app_tag = d.app_tag;
  path = d.path;
  message = d.message;
  info_elements = info_pairs d.info;
}

module _ {W Node : Type 0} (api : Sysrepo W Node) where
  -- impl_getErrors<ErrorInfo>
  unfoldable pub get_errors : ℕ → Eff W (List ErrorInfo)
  unfolding error_infos throw_if_error_bare
  get_errors sess = do
    retrieved ← read (api.sr_session_get_error sess)
    throw_if_error_bare retrieved.0 (codes "Couldn't retrieve errors")
    pure (elim retrieved.1 [ none ↦ [] | some es ↦ error_infos es ])

  -- The loop of impl_getErrors<NetconfErrorInfo>.
  unfoldable pub netconf_loop : List SrError → Eff W (List NetconfErrorInfo)
  unfolding throw_if_error_bare
  netconf_loop [] = pure []
  netconf_loop (e ∷ es) =
      let rest = netconf_loop es in
      if not (is_netconf e.error_format) then rest else (do
        got ← read (api.sr_err_get_netconf_error e)
        throw_if_error_bare got.0 (codes "Couldn't retrieve errors")
        errors ← rest
        pure (netconf_error_info got.1 ∷ errors))

  -- impl_getErrors<NetconfErrorInfo>
  unfoldable pub get_netconf_errors : ℕ → Eff W (List NetconfErrorInfo)
  unfolding netconf_loop throw_if_error_bare
  get_netconf_errors sess = do
    retrieved ← read (api.sr_session_get_error sess)
    throw_if_error_bare retrieved.0 (codes "Couldn't retrieve errors")
    elim retrieved.1 [ none ↦ pure [] | some es ↦ netconf_loop es ]

-- The lines that an error message has behind its head.
unfoldable pub error_lines : List ErrorInfo → Text
error_lines [] = []
error_lines (e ∷ es) = codes "\n " ++ (print_error_info e ++ error_lines es)

unfoldable pub netconf_lines : List NetconfErrorInfo → Text
netconf_lines [] = []
netconf_lines (e ∷ es) = codes "\n NETCONF: " ++ (print_netconf_error_info e ++ netconf_lines es)

module _ {W Node : Type 0} (api : Sysrepo W Node) where
  unfoldable pub session_lines : Option ℕ → Eff W Text
  session_lines none = pure []
  session_lines (some sess) = do
    errors ← get_errors api sess
    netconf_errors ← get_netconf_errors api sess
    pure (error_lines errors ++ netconf_lines netconf_errors)

  -- throwIfError
  unfoldable pub throw_if_error : ℕ → Text → Option ℕ → Eff W (Unit {0})
  unfolding session_lines
  throw_if_error code msg sess = if code == 0 then pure tt else (do
    lines ← session_lines sess
    throw (error_with_code (error_head code msg ++ lines) (as_error_code code)))
