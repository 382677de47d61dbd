-- ===== src/Processes/Health.antt =====
-- `readiness` of services/api/app/api/v1/health.py.
use eventsphere.Prelude.{ap, refl, ◌+◌, ℕ, ◌≡◌, Bool, true, false, if◌then◌else◌}
use eventsphere.Errors.{Result, ok, err, Error, continue, ◌>>=◌}
use eventsphere.Processes.Connections.{
  Outside, Host, new_client, stub, start_client, start_producer,
}
use eventsphere.Processes.Servers.{start_up}

-- The texts of the checks: "ok", and "error: …" with the exception.
pub data Check : Type 0 where
  passed : Check
  failed : Error → Check

pub record Readiness : Type 0 where
  pub status_code : ℕ
  pub healthy : Bool
  pub database : Check
  pub redis : Check
  pub inventory_grpc : Check

abbrev pub check_of : Result (Unit {0}) → Check
check_of (ok _) = passed
check_of (err e) = failed e

abbrev pub still_healthy : Result (Unit {0}) → Bool → Bool
still_healthy (ok _) healthy = healthy
still_healthy (err e) healthy = false

-- What `SELECT 1`, `ping` and the property `stub` give; a stub that is returned is never None.
unfoldable pub readiness : Result (Unit {0}) → Result (Unit {0}) → Result (Unit {0}) → Readiness
readiness select_one ping stub =
    let healthy = still_healthy stub (still_healthy ping (still_healthy select_one true)) in
    record {
      status_code = if healthy then 200 else 503;
      healthy = healthy;
      database = check_of select_one;
      redis = check_of ping;
      inventory_grpc = check_of stub;
    }

module _ {W : Type 0} (o : Outside) where
  client_started :
      (out : Result (Unit {0}) × Host W) (h' : Host W)
      → continue out (λ _. new_client o >>= λ _. start_client o) ≡ (ok tt, h')
      → true ≡ h'.client_set
  unfolding start_client
  client_started (ok _, h) h' e = ap (λ (x : Result (Unit {0}) × Host W). x.1.client_set) e
  client_started (err x, h) h' e = absurd (cc)

  -- An API that has started up is ready as soon as its database and its Redis answer.
  pub started-ready :
      (h h' : Host W)
      → start_up o h ≡ (ok tt, h')
      → (readiness (ok tt) (ok tt) (stub o h')).status_code ≡ 200
  unfolding readiness stub start_up
  started-ready h h' up =
      rw
        (← client_started
          (start_producer o (record h {
            producer_set = false;
            opened = record h.opened { redis = h.opened.redis + 1 };
          }))
          h' up)
        refl
