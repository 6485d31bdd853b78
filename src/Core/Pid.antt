-- ===== src/Core/Pid.antt =====
-- The PID controller (DCS_Core/src/pid.cpp). The operations on `double` and the clock are parameters.
use dcscan_modules_api.Prelude.{
  min, max, ◌≡◌, inl, inr, Bool, false, ◌||◌, if◌then◌else◌, Bool-cases,
}

pub record Real (F : Type 0) : Type 0 where
  pub zero_f : F
  pub add : F → F → F
  pub sub : F → F → F
  pub mul : F → F → F
  pub div : F → F → F
  pub less : F → F → Bool

pub record Pid (F : Type 0) : Type 0 where
  pub min : F
  pub max : F
  pub kp : F
  pub kd : F
  pub ki : F
  pub target : F
  pub bias : F
  pub le : F
  pub integral : F

module _ {F : Type 0} (real : Real F) where
  unfoldable pub set_target_and_bias : F → F → Pid F → Pid F
  set_target_and_bias target bias pid =
      if real.less pid.max target || real.less target pid.min
      then record pid { target = real.zero_f; bias = real.zero_f }
      else record pid { target = target; bias = bias }

  -- The constructor.
  unfoldable pub create : F → F → F → F → F → Pid F
  unfolding set_target_and_bias
  create min max kp kd ki = set_target_and_bias real.zero_f real.zero_f (record {
    min = min;
    max = max;
    kp = kp;
    kd = kd;
    ki = ki;
    target = real.zero_f;
    bias = real.zero_f;
    le = real.zero_f;
    integral = real.zero_f;
  })

  -- `std::clamp`
  unfoldable pub clamp : F → F → F → F
  clamp v lo hi = if real.less v lo then lo else if real.less hi v then hi else v

  -- The proportional, the integral and the derivative term, and the bias.
  abbrev pub terms : F → F → Pid F → F
  terms e dt pid =
      real.add
        (real.add
          (real.add (real.mul pid.kp e) (real.mul pid.ki (real.add pid.integral (real.mul e dt))))
          (real.mul pid.kd (real.div (real.sub e pid.le) dt)))
        pid.bias

  -- `calculate`, after `dt` seconds.
  unfoldable pub calculate : F → F → Pid F → F × Pid F
  unfolding clamp
  calculate value dt pid =
      let e = real.sub pid.target value in
      (
        clamp (terms e dt pid) pid.min pid.max,
        record pid { integral = real.add pid.integral (real.mul e dt); le = e },
      )

  -- Where the lower limit is not above the upper one, the output is between the two, whatever the
  -- value, the time and the past.
  pub calculate-bounded :
      (value dt : F) (pid : Pid F)
      → ((x : F) → real.less x x ≡ false)
      → real.less pid.max pid.min ≡ false
      → let (output, after) = calculate value dt pid in
        (real.less output pid.min ≡ false) × (real.less pid.max output ≡ false)
  unfolding calculate clamp
  calculate-bounded value dt pid irreflexive ordered =
      within (terms (real.sub pid.target value) dt pid)
    where
      within :
          (v : F)
          → (real.less (clamp v pid.min pid.max) pid.min ≡ false)
            × (real.less pid.max (clamp v pid.min pid.max) ≡ false)
      within v = elim (Bool-cases (real.less v pid.min)) [
        | inl low ↦ rw low (irreflexive pid.min, ordered)
        | inr not_low ↦ elim (Bool-cases (real.less pid.max v)) [
          | inl high ↦ rw (not_low, high) (ordered, irreflexive pid.max)
          | inr not_high ↦ rw (not_low, not_high) (not_low, not_high)
        ]
      ]
