-- ===== src/User/Trace/Severity/Priorities.antt =====
-- The values of the priority that syslog gets, and what one attempt to send does to it.
use osal.Base.{ℕ, ◌≡◌, refl, ◌⊎◌, inl, inr, Bool, true, false, not, ◌&&◌, List, if◌then◌else◌}
use Prim.Native.Nat.{bit_or}
use osal.User.Trace.{
  TraceLevel, t_none, t_error, t_warning, t_info, Outcome, logged, fits, syslog_trace_level,
  to_syslog, silent, overrun,
}

abbrev pub is_error : TraceLevel → Bool
is_error t_error = true
is_error t = false

-- The facility alone, or with LOG_ERR.
abbrev pub IsClean : ℕ → Type 0
IsClean p = (p ≡ 8) ⊎ (p ≡ 11)

-- With other severities.
abbrev pub IsMixed : ℕ → Type 0
IsMixed p = (p ≡ 12) ⊎ (p ≡ 14) ⊎ (p ≡ 15)

pub clean-error : (p : ℕ) → IsClean p → bit_or p 3 ≡ 11
clean-error p (inl e) = rw e refl
clean-error p (inr e) = rw e refl

or_other-IsMixed :
    (l : TraceLevel) (p : ℕ)
    → is_error l ≡ false
    → IsClean p
    → IsMixed (bit_or p (syslog_trace_level l))
unfolding syslog_trace_level
or_other-IsMixed t_none p o (inl e) = rw e (inr (inr refl))
or_other-IsMixed t_none p o (inr e) = rw e (inr (inr refl))
or_other-IsMixed t_error p o c = cc
or_other-IsMixed t_warning p o (inl e) = rw e (inl refl)
or_other-IsMixed t_warning p o (inr e) = rw e (inr (inr refl))
or_other-IsMixed t_info p o (inl e) = rw e (inr (inl refl))
or_other-IsMixed t_info p o (inr e) = rw e (inr (inr refl))

pub or-IsMixed : (l : TraceLevel) (p : ℕ) → IsMixed p → IsMixed (bit_or p (syslog_trace_level l))
unfolding syslog_trace_level
or-IsMixed t_none p (inl e) = rw e (inr (inr refl))
or-IsMixed t_none p (inr (inl e)) = rw e (inr (inr refl))
or-IsMixed t_none p (inr (inr e)) = rw e (inr (inr refl))
or-IsMixed t_error p (inl e) = rw e (inr (inr refl))
or-IsMixed t_error p (inr (inl e)) = rw e (inr (inr refl))
or-IsMixed t_error p (inr (inr e)) = rw e (inr (inr refl))
or-IsMixed t_warning p (inl e) = rw e (inl refl)
or-IsMixed t_warning p (inr (inl e)) = rw e (inr (inl refl))
or-IsMixed t_warning p (inr (inr e)) = rw e (inr (inr refl))
or-IsMixed t_info p (inl e) = rw e (inr (inl refl))
or-IsMixed t_info p (inr (inl e)) = rw e (inr (inl refl))
or-IsMixed t_info p (inr (inr e)) = rw e (inr (inr refl))

pub if-branch :
    (P : ℕ → Type 0) (b : Bool) (x y : Outcome × ℕ) → P x.1 → P y.1 → P (if b then x else y).1
if-branch P true x y p q = p
if-branch P false x y p q = q

-- A call of syslog or none.
pub to_syslog-keeps :
    (P : ℕ → Type 0) (text message : List ℕ) (l : TraceLevel) (p : ℕ)
    → P p
    → P (bit_or p (syslog_trace_level l))
    → P (to_syslog text message l p).1
unfolding to_syslog
to_syslog-keeps P text message l p old new =
    if-branch P (fits text) _ _ (if-branch P (fits message) _ _ new old) old

-- What to_syslog leaves, by the tests of its two buffers.
abbrev pub sent : (f g : Bool) (message : List ℕ) (l : TraceLevel) (p : ℕ) → Outcome × ℕ
sent f g message l p =
    let q = bit_or p (syslog_trace_level l) in
    if f then if g then (logged q message, q) else (overrun, p) else (overrun, p)

pub sent-IsClean :
    (f g : Bool) (message : List ℕ) (l : TraceLevel) (p : ℕ)
    → IsClean p
    → (f && g && not (is_error l)) ≡ false
    → IsClean (sent f g message l p).1
unfolding syslog_trace_level
sent-IsClean false g message l p c o = c
sent-IsClean true false message l p c o = c
sent-IsClean true true message t_error p c o = inr (clean-error p c)
sent-IsClean true true message t_none p c o = cc
sent-IsClean true true message t_warning p c o = cc
sent-IsClean true true message t_info p c o = cc

pub sent-IsMixed :
    (f g : Bool) (message : List ℕ) (l : TraceLevel) (p : ℕ)
    → IsClean p
    → (f && g && not (is_error l)) ≡ true
    → IsMixed (sent f g message l p).1
sent-IsMixed false g message l p c o = cc
sent-IsMixed true false message l p c o = cc
sent-IsMixed true true message t_error p c o = cc
sent-IsMixed true true message t_none p c o = or_other-IsMixed t_none p refl c
sent-IsMixed true true message t_warning p c o = or_other-IsMixed t_warning p refl c
sent-IsMixed true true message t_info p c o = or_other-IsMixed t_info p refl c

pub and-false : (f g : Bool) → (f && g && false) ≡ false
and-false false g = refl
and-false true false = refl
and-false true true = refl

-- One call, by whether it logs at another severity than LOG_ERR.
pub guarded-IsClean :
    (b : Bool) (x : Outcome × ℕ) (p : ℕ) (o : Bool)
    → IsClean p
    → (b && o) ≡ false
    → (o ≡ false → IsClean x.1)
    → IsClean (if b then x else (silent, p)).1
guarded-IsClean true x p o c h k = k h
guarded-IsClean false x p o c h k = c

pub guarded-IsMixed :
    (b : Bool) (x : Outcome × ℕ) (p : ℕ) (o : Bool)
    → (b && o) ≡ true
    → (o ≡ true → IsMixed x.1)
    → IsMixed (if b then x else (silent, p)).1
guarded-IsMixed true x p o h k = k h
guarded-IsMixed false x p o h k = cc

pub mixed-error : (p : ℕ) → IsMixed p → bit_or p 3 ≡ 15
mixed-error p (inl e) = rw e refl
mixed-error p (inr (inl e)) = rw e refl
mixed-error p (inr (inr e)) = rw e refl
