-- ===== src/Rng/Limit.antt =====
-- The rate limit of nauti-fabric/src/vhost/rng.rs.
use nauti_virtualizer.Prelude.{
  ℕ, ◌+◌, ◌-◌, ◌*◌, ◌/◌, ◌≤◌, ◌≡◌, refl, ap, subst, ◌∙◌, true, Option, none, some, List, [], ◌∷◌,
  ltb, leb, ◌==◌, arith, inl, inr, Bool-cases,
}
use nauti_virtualizer.Rng.{
  Source, RngConfig, validate, new_timer, TimerConfig, Request, Descriptor, RngBackend, RngError,
  ms, restart, renew_within, renew, to_read, complete, fill, serve_descriptors, serve_request,
  go_on, process_requests,
}

-- The bytes of all used entries.
unfoldable pub served : List (ℕ × ℕ) → ℕ
served [] = 0
served ((head, len) ∷ used) = len + served used

-- The periods that have begun between two states, and what has been served in them: at most what was
-- left of the first period, and `max_bytes` in each that has begun since.
pub record Within {S : Type 0} (b b' : RngBackend S) : Type 0 where
  pub periods : ℕ
  pub bytes :
      served b'.used + b'.timer.quota_remaining
      ≤ served b.used + b.timer.quota_remaining + periods * b.timer.max_bytes
  pub spaced : b.timer.period_start + periods * (b.timer.period_ms * ms) ≤ b'.timer.period_start
  pub same_limit : b'.timer.max_bytes ≡ b.timer.max_bytes
  pub same_period : b'.timer.period_ms ≡ b.timer.period_ms

Within-refl : {S : Type 0} (b : RngBackend S) → Within b b
Within-refl b = record {
  periods = 0;
  bytes = omega arith;
  spaced = omega arith;
  same_limit = refl;
  same_period = refl;
}

Within-trans : {S : Type 0} (a b c : RngBackend S) → Within a b → Within b c → Within a c
Within-trans a b c h k = record {
  periods = h.periods + k.periods;
  bytes = omega (arith, h.bytes, k.bytes, ap (λ m. k.periods * m) h.same_limit);
  spaced = omega (arith, h.spaced, k.spaced, ap (λ p. k.periods * (p * ms)) h.same_period);
  same_limit = k.same_limit ∙ h.same_limit;
  same_period = k.same_period ∙ h.same_period;
}

leb→le : (a b : ℕ) → leb a b ≡ true → a ≤ b
leb→le a b h = ground arith

late :
    (period start now : ℕ)
    → start ≤ now
    → leb period ((now - start) / ms) ≡ true
    → start + period * ms ≤ now
late period start now after h = omega (arith, leb→le period ((now - start) / ms) h)

module _ {S : Type 0} where
  restarted :
      (b : RngBackend S) (start : ℕ)
      → b.timer.period_start + b.timer.period_ms * ms ≤ start
      → Within b (record b { timer = restart b.timer start })
  unfolding restart
  restarted b start late = record {
    periods = 1;
    bytes = omega arith;
    spaced = omega arith;
    same_limit = refl;
    same_period = refl;
  }

  renewed_within :
      (b : RngBackend S) (now overrun : ℕ)
      → b.timer.period_start ≤ now
      → Within b (record b {
        timer = renew_within b.timer ((now - b.timer.period_start) / ms) now overrun;
      })
  unfolding renew_within
  renewed_within b now overrun after =
      elim (Bool-cases (leb b.timer.period_ms ((now - b.timer.period_start) / ms))) [
        | inl e ↦ rw e (restarted b now (late b.timer.period_ms b.timer.period_start now after e))
        | inr e ↦ elim (Bool-cases (b.timer.quota_remaining == 0)) [
          | inl z ↦
              rw (e, z)
                (restarted b
                  (now + (b.timer.period_ms - (now - b.timer.period_start) / ms) * ms + overrun)
                  (omega arith))
          | inr z ↦ rw (e, z) (Within-refl b)
        ]
      ]

  renewed :
      (b : RngBackend S) (now overrun : ℕ) (t : TimerConfig)
      → renew b.timer now overrun ≡ some t
      → Within b (record b { timer = t })
  unfolding renew
  renewed b now overrun t h = elim (Bool-cases (ltb now b.timer.period_start)) [
    | inl e ↦ absurd (ground (arith, e, h))
    | inr e ↦
        let same : renew_within b.timer ((now - b.timer.period_start) / ms) now overrun ≡ t =
          ground (arith, e, h) in
        subst (λ x. Within b (record b { timer = x })) same
          (renewed_within b now overrun (ground (arith, e)))
  ]

module _ {S : Type 0} (src : Source S)
    (at_most : (n k : ℕ) (s s' : S) → src.read n s ≡ some (k, s') → k ≤ n) where
  to_read_quota : (t : TimerConfig) (len : ℕ) → to_read t len ≤ t.quota_remaining
  unfolding to_read
  to_read_quota t len = ground arith

  completed :
      (head len : ℕ) (t : TimerConfig) (o : Option (ℕ × S)) (b : RngBackend S)
      → src.read (to_read t len) b.source ≡ o
      → Within (record b { timer = t }) (complete src head t o b).1
  unfolding complete served
  completed head len t none b e = Within-refl (record b { timer = t })
  completed head len t (some (k, s)) b e = record {
    periods = 0;
    bytes = omega (arith, at_most (to_read t len) k b.source s e, to_read_quota t len);
    spaced = omega arith;
    same_limit = refl;
    same_period = refl;
  }

  filled :
      (r : Request) (d : Descriptor) (o : Option TimerConfig) (b : RngBackend S)
      → renew b.timer r.now r.overrun ≡ o
      → Within b (fill src r d o b).1
  unfolding fill
  filled r d none b e = Within-refl b
  filled r d (some t) b e =
      Within-trans b (record b { timer = t }) _ (renewed b r.now r.overrun t e)
        (completed r.head_index d.len t (src.read (to_read t d.len) b.source) b refl)

  served_descriptors :
      (r : Request) (ds : List Descriptor) (b : RngBackend S)
      → Within b (serve_descriptors src r ds b).1
  unfolding serve_descriptors
  served_descriptors r [] b = Within-refl b
  served_descriptors r (d ∷ []) b = elim (Bool-cases d.write_only) [
    | inl e ↦ rw e (filled r d (renew b.timer r.now r.overrun) b refl)
    | inr e ↦ rw e (Within-refl b)
  ]
  served_descriptors r (d ∷ e ∷ ds) b = Within-refl b

  went_on :
      (q : Option RngError × RngBackend S) (b : RngBackend S)
      (next : RngBackend S → Option RngError × RngBackend S)
      → Within b (q.1)
      → ((c : RngBackend S) → Within c (next c).1)
      → Within b (go_on src q next).1
  went_on (none, c) b next h k = Within-trans b c _ h (k c)
  went_on (some e, c) b next h k = h

  -- The rate limit. When the source never returns more bytes than it is asked for, then, whatever the
  -- requests and whether or not one of them fails, what is served is at most what was left of the
  -- period's quota and `max_bytes` for each period that has begun since, and the periods that have
  -- begun lie at least `period_ms` apart.
  pub process_requests-Within :
      (rs : List Request) (b : RngBackend S) → Within b (process_requests src rs b).1
  unfolding process_requests serve_request
  process_requests-Within [] b = Within-refl b
  process_requests-Within (r ∷ rs) b =
      went_on (serve_descriptors src r r.descriptors b) b (process_requests src rs)
        (served_descriptors r r.descriptors b) (λ c. process_requests-Within rs c)

  -- A backend that is configured with a `max_bytes` of 0 never serves a byte, whatever the requests,
  -- although it completes them; `validate` looks at the period only, and accepts that configuration.
  pub zero_quota_serves_nothing :
      (c : RngConfig) (start : ℕ) (s : S) (rs : List Request)
      → c.max_bytes ≡ 0
      → validate c ≡ true
      → served
          (process_requests src rs
            (record { timer = new_timer c start; source = s; used = [] })).1.used
        ≡ 0
  unfolding new_timer served
  zero_quota_serves_nothing c start s rs none_left valid =
      let w =
        process_requests-Within rs (record { timer = new_timer c start; source = s; used = [] }) in
      omega (arith, w.bytes, ap (λ m. w.periods * m) none_left)
