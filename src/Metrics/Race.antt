-- ===== src/Metrics/Race.antt =====
-- prometheus/prometheus.go: what calls of Api() that overlap do to each other.
use das_multi_device.Prelude.{
  ℕ, zero, suc, ◌+◌, none, some, List, [], ◌∷◌, ◌++◌, ◌≡◌, refl, sym, arith, subst,
}
use das_multi_device.Metrics.{Collector, CallStep, look, make, call_step, call_steps, new_collector}

-- n calls that look.
unfoldable pub looks : ℕ → List CallStep
looks zero = []
looks (suc n) = look ∷ looks n

call_steps-append :
    (ts us : List CallStep) (c : Collector)
    → call_steps (ts ++ us) c ≡ call_steps us (call_steps ts c)
unfolding call_steps
call_steps-append [] us c = refl
call_steps-append (t ∷ ts) us c = call_steps-append ts us (call_step t c)

-- Before the first call makes the collector: n have looked.
record Unmade (n : ℕ) (c : Collector) : Type 0 where
  unmade : c.current ≡ none
  unregistered : c.registered ≡ none
  no_makes : c.makes ≡ 0
  all_missing : c.missing ≡ n
  none_panicked : c.panicked ≡ 0

call_steps-looks : (n k : ℕ) (c : Collector) → Unmade k c → Unmade (n + k) (call_steps (looks n) c)
unfolding call_steps call_step looks
call_steps-looks zero k c h = subst (λ m. Unmade m c) (omega arith) h
call_steps-looks (suc n) k c h =
    subst (λ m. Unmade m (call_steps (looks n) (call_step look c))) (omega arith)
      (call_steps-looks n (suc k) (call_step look c) (ground arith))

-- Once it is made: n calls that found nothing will panic or have.
pub record Made (n : ℕ) (c : Collector) : Type 0 where
  pub made : c.current ≡ some c.panicked
  pub registered : c.registered ≡ some 0
  pub makes : c.makes ≡ c.panicked + 1
  pub counts : c.panicked + c.missing ≡ n

call_step-Made : (n : ℕ) (t : CallStep) (c : Collector) → Made n c → Made n (call_step t c)
unfolding call_step
call_step-Made n look c h = ground arith
call_step-Made n make c h = ground arith

call_steps-Made : (n : ℕ) (ts : List CallStep) (c : Collector) → Made n c → Made n (call_steps ts c)
unfolding call_steps
call_steps-Made n [] c h = h
call_steps-Made n (t ∷ ts) c h = call_steps-Made n ts (call_step t c) (call_step-Made n t c h)

make-Made : (n : ℕ) (c : Collector) → Unmade (suc n) c → Made n (call_step make c)
unfolding call_step
make-Made n c h = ground arith

-- When n + 1 calls of Api() have looked before the first of them makes the collector, exactly n of them
-- panic or are still to make it, whatever steps these and later calls take. The registry keeps the first
-- collector, and Api() returns the one of the last call that panicked, so that after a panic what is
-- observed is no longer gathered.
pub panicked-call_steps :
    (n : ℕ) (ts : List CallStep) → Made n (call_steps (looks (suc n) ++ (make ∷ ts)) new_collector)
unfolding call_steps
panicked-call_steps n ts =
    subst (Made n) (sym (call_steps-append (looks (suc n)) (make ∷ ts) new_collector)) (
      call_steps-Made n ts _ (
        make-Made n _ (
          subst (λ m. Unmade m (call_steps (looks (suc n)) new_collector)) (omega arith)
            (call_steps-looks (suc n) 0 new_collector (record {
              unmade = refl;
              unregistered = refl;
              no_makes = refl;
              all_missing = refl;
              none_panicked = refl;
            })))))
