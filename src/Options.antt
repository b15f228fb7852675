-- ===== src/Options.antt =====
-- checkNoThreadFlag of src/utils/utils.cpp: custom event loop callbacks go with the flag NoThread.
use sysrepo_cpp.Base.{
  Bool, true, false, inl, inr, Bool-cases, ◌⊎◌, ◌≡◌, ◌↔◌, ◌&&◌, not, Option, codes, if◌then◌else◌,
  has_value, arith,
}
use sysrepo_cpp.Enums.Flags.{enum_bit_and}
use sysrepo_cpp.Enums.Flags.Subscribe.{SubscribeOptions, no_thread}
use sysrepo_cpp.Effects.{error, Eff, Exn, throws, ok, pure, throw}

unfoldable pub check_no_thread_flag :
    {W FdHandling : Type 0} → SubscribeOptions → Option FdHandling → Eff W (Unit {0})
check_no_thread_flag opts callbacks =
    let includes_flag = enum_bit_and opts no_thread in
    if has_value callbacks && not includes_flag
    then throw (
        error (
          codes "Setting custom event loop callbacks requires the SubscribeOptions::NoThread flag"))
    else if includes_flag && not (has_value callbacks)
    then throw (
        error
          (codes "CustomEventLoopCallbacks must be present when using SubscribeOptions::NoThread"))
    else pure tt

-- The check changes nothing, and passes exactly when the flag and the callbacks come together.
pub check_no_thread_flag_passes :
    {W FdHandling : Type 0} (opts : SubscribeOptions) (callbacks : Option FdHandling) (w : W)
    → ((check_no_thread_flag opts callbacks w).1 ≡ w)
      × ((check_no_thread_flag opts callbacks w ≡ (ok tt, w))
          ↔ (has_value callbacks ≡ enum_bit_and opts no_thread))
unfolding check_no_thread_flag
check_no_thread_flag_passes opts callbacks w =
    (ground arith, (λ h. ground arith, λ h. ground arith))

-- Whether the callbacks are there just when the flag is.
abbrev pub flag_fits : {FdHandling : Type 0} → SubscribeOptions → Option FdHandling → Bool
flag_fits opts callbacks =
    if has_value callbacks then enum_bit_and opts no_thread else not (enum_bit_and opts no_thread)

pub check_no_thread_flag_cases :
    {W FdHandling : Type 0} (opts : SubscribeOptions) (callbacks : Option FdHandling) (w : W)
    → ((flag_fits opts callbacks ≡ true) × (check_no_thread_flag opts callbacks w ≡ (ok tt, w)))
      ⊎ ((x : Exn) × (flag_fits opts callbacks ≡ false)
          × (check_no_thread_flag opts callbacks w ≡ (throws x, w)))
unfolding check_no_thread_flag
check_no_thread_flag_cases opts callbacks w = elim (Bool-cases (has_value callbacks)) [
  | inl a ↦ elim (Bool-cases (enum_bit_and opts no_thread)) [
    | inl b ↦ inl (ground arith, ground arith)
    | inr b ↦ inr (
      error (
          codes "Setting custom event loop callbacks requires the SubscribeOptions::NoThread flag"),
      ground arith,
      ground arith,
    )
  ]
  | inr a ↦ elim (Bool-cases (enum_bit_and opts no_thread)) [
    | inl b ↦ inr (
      error
          (codes "CustomEventLoopCallbacks must be present when using SubscribeOptions::NoThread"),
      ground arith,
      ground arith,
    )
    | inr b ↦ inl (ground arith, ground arith)
  ]
]
