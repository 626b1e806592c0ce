-- ===== src/Rdma/Guard/Laws.antt =====
-- Posts through a guard.
use rdmas.Base.{
  ℕ, ◌+◌, ◌%◌, ◌^◌, ◌≡◌, refl, ap, ◌∙◌, true, false, List, [], ◌∷◌, length, some, arith,
}
use rdmas.Base.Result.{done, err}
use rdmas.Client.Retry.{hardware_error}
use rdmas.Rdma.Verbs.{Verbs, QpState}
use rdmas.Rdma.Qp
use rdmas.Rdma.Qp.{SendWorkRequest}
use rdmas.Rdma.Guard.{QpGuard, is_broken, check_health, after_health, guarded, post_send}

-- Requests posted one after the other, whatever becomes of each.
abbrev post_all : {W : Type 0} → Verbs W → List SendWorkRequest → QpGuard × W → QpGuard × W
post_all v [] s = s
post_all v (wr ∷ wrs) s = post_all v wrs (post_send v wr s).0

module _ {W : Type 0} (v : Verbs W) (w : W) (state : QpState)
    (query : v.query_qp w ≡ (w, 0, state)) where
  check_health-healthy :
      (g : QpGuard) → is_broken state ≡ false → check_health v (g, w) ≡ ((g, w), done tt)
  unfolding check_health
  check_health-healthy g healthy = rw (query, healthy) refl

  refused : QpGuard → QpGuard
  refused g = record {
    recovery_count = (g.recovery_count + 1) % 2 ^ 64;
    last_error = some (hardware_error []);
  }

  check_health-broken :
      (g : QpGuard)
      → is_broken state ≡ true
      → check_health v (g, w) ≡ ((refused g, w), err (hardware_error []))
  unfolding check_health refused
  check_health-broken g broken = rw (query, broken) refl

  post_send-broken :
      (wr : SendWorkRequest) (g : QpGuard)
      → is_broken state ≡ true
      → (post_send v wr (g, w)).0 ≡ (refused g, w)
  unfolding post_send guarded after_health
  post_send-broken wr g broken =
      ap (λ r. (after_health v (Qp.post_send v wr) r).0) (check_health-broken g broken)

  -- On a queue pair that can be queried and is neither in error nor unknown, a post through the guard is a post.
  pub post_send-healthy :
      (wr : SendWorkRequest) (g : QpGuard)
      → is_broken state ≡ false
      → post_send v wr (g, w) ≡ ((g, (Qp.post_send v wr w).0), (Qp.post_send v wr w).1)
  unfolding post_send guarded after_health
  post_send-healthy wr g healthy =
      ap (after_health v (Qp.post_send v wr)) (check_health-healthy g healthy)

  -- On one that is, every post is refused: none of the requests reaches the device, the error is kept, and the recovery
  -- counter counts the refusals, although nothing recovers the queue pair.
  post_all-broken :
      (wr : SendWorkRequest) (wrs : List SendWorkRequest) (g : QpGuard)
      → is_broken state ≡ true
      → post_all v (wr ∷ wrs) (g, w) ≡ (
        record {
          recovery_count = (g.recovery_count + length (wr ∷ wrs)) % 2 ^ 64;
          last_error = some (hardware_error []);
        },
        w,
      )
  unfolding refused
  post_all-broken wr [] g broken = post_send-broken wr g broken
  post_all-broken wr (wr' ∷ wrs) g broken =
      let count : ((g.recovery_count + 1) % 2 ^ 64 + length (wr' ∷ wrs)) % 2 ^ 64
          ≡ (g.recovery_count + length (wr ∷ wr' ∷ wrs)) % 2 ^ 64 =
        omega arith in
      ap (λ s. post_all v (wr' ∷ wrs) s) (post_send-broken wr g broken)
      ∙ post_all-broken wr' wrs (refused g) broken
      ∙ ap (λ (n : ℕ). (record { recovery_count = n; last_error = some (hardware_error []) }, w))
          count
