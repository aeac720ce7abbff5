-- ===== src/Store/ClickHouse/Connect.antt =====
-- pkg/store/clickhouse.go, `NewClickHouse`: the pings.
use apexio.Base.{
  ℕ, zero, suc, ◌≤◌, ◌≡◌, refl, ◌↔◌, Option, none, some, arith, Option-cases, inl, inr, ◌≢◌, sym,
  ◌∙◌,
}
use apexio.Errors.{Err}
use apexio.Store.ClickHouse.{Driver, ping_loop}

module _ (D : Driver) where
  -- The connection behind `k` pings, and that each of them failed.
  abbrev pub pinged : ℕ → D.Conn → D.Conn
  pinged zero conn = conn
  pinged (suc k) conn = pinged k (D.ping conn).1

  abbrev pub AllFail : ℕ → D.Conn → Type 0
  AllFail zero conn = Unit
  AllFail (suc k) conn = (x : Err) × ((D.ping conn).0 ≡ some x) × AllFail k (D.ping conn).1

  later :
      (n : ℕ) (conn : D.Conn) {x : Err}
      → (D.ping conn).0 ≡ some x
      → (ping_loop D (suc n) conn).0 ≡ (ping_loop D n (D.ping conn).1).0
  unfolding ping_loop
  later n conn failed = rw (failed, ping_loop) refl

  earlier :
      (n : ℕ) (x : Err) (conn : D.Conn)
      → (D.ping conn).0 ≡ some x
      → (k : ℕ) → k ≤ suc n
      → AllFail k conn
      → (D.ping (pinged k conn)).0 ≡ none
      → (k : ℕ) × (k ≤ n)
        × AllFail k (D.ping conn).1
        × ((D.ping (pinged k (D.ping conn).1)).0 ≡ none)
  earlier n x conn failed zero below fails done = elim (some≢none (sym failed ∙ done)) [ ]
    where
      some≢none : ◌≢◌ {A = Option Err} (some x) none
      some≢none same = cc
  earlier n x conn failed (suc k) below (_, _, fails) done = (k, omega (arith, below), fails, done)

  -- The loop of `NewClickHouse` connects exactly if one of its `n + 1` pings succeeds: it goes on
  -- behind each that fails, and stops at the first that does not.
  pub ping_loop-none_iff :
      (n : ℕ) (conn : D.Conn)
      → ((ping_loop D n conn).0 ≡ none)
        ↔ ((k : ℕ) × (k ≤ n) × AllFail k conn × ((D.ping (pinged k conn)).0 ≡ none))
  unfolding ping_loop
  ping_loop-none_iff zero conn =
      (λ h. (0, omega arith, tt, h), λ (k, below, fails, done). at_zero k below done)
    where
      at_zero : (k : ℕ) → k ≤ 0 → (D.ping (pinged k conn)).0 ≡ none → (D.ping conn).0 ≡ none
      at_zero zero below done = done
      at_zero (suc k) below done = ground (arith, below)
  ping_loop-none_iff (suc n) conn = elim (Option-cases (D.ping conn).0) [
    | inl done ↦ (λ _. (0, omega arith, tt, done), λ _. rw (done, ping_loop) refl)
    | inr (x, failed) ↦ (
      λ h.
          let (k, below, fails, done) =
            (ping_loop-none_iff n (D.ping conn).1).0 (sym (later n conn failed) ∙ h) in
          (suc k, omega (arith, below), (x, failed, fails), done),
      λ (k, below, fails, done).
          later n conn failed
          ∙ (ping_loop-none_iff n (D.ping conn).1).1 (earlier n x conn failed k below fails done),
    )
  ]
