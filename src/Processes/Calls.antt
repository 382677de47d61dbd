-- ===== src/Processes/Calls.antt =====
-- How each call of a process that opens or closes a connection ends, by what the library call under
-- it gives.
use eventsphere.Prelude.{
  true, if◌then◌else◌, ◌∙◌, ℕ, ◌+◌, ◌-◌, ◌≡◌, refl, ap, ◌⊎◌, inl, inr, Bool, List, arith,
}
use eventsphere.Errors.{Error, Result, ok, err, Action, continue, ◌>>=◌}
use eventsphere.Processes.Connections.{
  Outside, Host, Connections, then_clean, on_success, close_redis, run_consumer, start_producer,
  stop_producer, stop_client,
}
use eventsphere.Processes.Servers.{shut_down}

pub outcome : (r : Result (Unit {0})) → (r ≡ ok tt) ⊎ ((e : _) × (r ≡ err e))
outcome (ok _) = inl refl
outcome (err e) = inr (e, refl)

-- The calls that close something succeed.
pub record Stops (o : Outside) : Type 0 where
  pub producer : o.producer_stops ≡ ok tt
  pub consumer : o.consumer_stops ≡ ok tt
  pub channel : o.channel_closes ≡ ok tt
  pub redis : o.redis_closes ≡ ok tt
  pub engine : o.engine_disposes ≡ ok tt

module _ {W : Type 0} where
  -- A call that closes what it has opened, but for consumers, and leaves the other objects.
  pub record Kept (consumers : ℕ → ℕ) (h h' : Host W) : Type 0 where
    pub opened : h'.opened ≡ record h.opened { consumers = consumers h.opened.consumers }
    pub producer_set : h'.producer_set ≡ h.producer_set
    pub client_set : h'.client_set ≡ h.client_set

pub if_true : {A : Type 0} {x : A} (b : Bool) (y : A) → b ≡ true → (if b then x else y) ≡ x
if_true b y e = rw e refl

abbrev pub without_producer : Connections → Connections
without_producer c = record c { producers = c.producers - 1 }

abbrev pub without_channel : Connections → Connections
without_channel c = record c { channels = c.channels - 1 }

abbrev pub without_redis : Connections → Connections
without_redis c = record c { redis = c.redis - 1 }

-- What is left open if the producer starts, and if it does not.
abbrev pub left : Result (Unit {0}) → Connections → Connections → Connections
left (ok _) closed leaked = closed
left (err e) closed leaked = leaked

-- A count, with what a start that fails leaves.
abbrev pub added : Result (Unit {0}) → ℕ → ℕ → ℕ
added (ok _) residue n = n
added (err e) residue n = n + residue

abbrev pub failed_producer : Outside → Connections → Connections
failed_producer o c = record c { producers = c.producers + o.producer_residue }

-- What a consumer leaves once it has run, or has failed to start.
abbrev pub consumer_left : Outside → Connections → Connections
consumer_left o c = record c { consumers = added o.consumer_starts o.consumer_residue c.consumers }

pub left-ok :
    (r : Result (Unit {0})) (closed leaked : Connections)
    → r ≡ ok tt
    → closed ≡ left r closed leaked
left-ok r closed leaked e = rw e refl

pub left-err :
    (r : Result (Unit {0})) (x : Error) (closed leaked : Connections)
    → r ≡ err x
    → leaked ≡ left r closed leaked
left-err r x closed leaked e = rw e refl

abbrev pub with_channel : Connections → Connections
with_channel c = record c { channels = c.channels + 1 }

abbrev pub with_redis : Connections → Connections
with_redis c = record c { redis = c.redis + 1 }

abbrev pub with_producer : Connections → Connections
with_producer c = record c { producers = c.producers + 1 }

pub back : (n : ℕ) → n + 1 - 1 ≡ n
back n = omega arith

module _ {W : Type 0} (o : Outside) (stops : Stops o) where
  module _ {M : Type 0} (handler : M → Action W (Unit {0})) (offset : ℕ)
      (messages : List (M × Bool)) where
    pub run_consumer-Kept :
        (h : Host W)
        → Kept
            (added o.consumer_starts o.consumer_residue)
            h
            (run_consumer o handler offset messages h).1
    unfolding run_consumer
    run_consumer-Kept h = elim (outcome o.consumer_starts) [
      | inr (e, failed) ↦
          rw (failed, run_consumer)
            (record { opened = refl; producer_set = refl; client_set = refl })
      | inl started ↦
          let closed = ap (λ n. record h.opened { consumers = n }) (back h.opened.consumers) in
          elim (outcome o.messages_end) [
            | inl ended ↦
                rw (started, ended, stops.consumer, run_consumer)
                  (record { opened = closed; producer_set = refl; client_set = refl })
            | inr (e, raised) ↦
                rw (started, raised, stops.consumer, run_consumer)
                  (record { opened = closed; producer_set = refl; client_set = refl })
          ]
    ]

  -- How each call ends, by what the library call under it gives.
  pub on_success-ok :
      (r : Result (Unit {0})) (change : Connections → Connections) (h : Host W)
      → r ≡ ok tt
      → on_success o r change h ≡ (ok tt, record h { opened = change h.opened })
  on_success-ok r change h e = rw e refl

  pub stop_producer-ok :
      (h : Host W)
      → h.producer_set ≡ true
      → stop_producer o h ≡ (ok tt, record h { opened = without_producer h.opened })
  unfolding stop_producer
  stop_producer-ok h is_set =
      if_true h.producer_set _ is_set
      ∙ on_success-ok o.producer_stops without_producer h stops.producer

  pub stop_client-ok :
      (h : Host W)
      → h.client_set ≡ true
      → stop_client o h ≡ (ok tt, record h { opened = without_channel h.opened })
  unfolding stop_client
  stop_client-ok h is_set =
      if_true h.client_set _ is_set ∙ on_success-ok o.channel_closes without_channel h stops.channel

  pub shut_down-ok :
      (h : Host W)
      → h.producer_set ≡ true
      → h.client_set ≡ true
      → shut_down o h ≡ (
        ok tt,
        record h {
          opened = record (without_producer (without_channel h.opened)) {
            redis = h.opened.redis - 1;
            pools = 0;
          };
        },
      )
  unfolding shut_down
  shut_down-ok h is_set also =
      let client = stop_client-ok h also in
      let h₁ : Host W = record h { opened = without_channel h.opened } in
      let producer = stop_producer-ok h₁ is_set in
      let h₂ : Host W = record h₁ { opened = without_producer h₁.opened } in
      let redis = on_success-ok o.redis_closes without_redis h₂ stops.redis in
      let h₃ : Host W = record h₂ { opened = record h₂.opened { redis = h₂.opened.redis - 1 } } in
      let engine = on_success-ok o.engine_disposes (λ c. record c { pools = 0 }) h₃ stops.engine in
      ap
        (λ x. continue x (λ _. stop_producer o >>= λ _.
          close_redis o >>= λ _. on_success o o.engine_disposes (λ c. record c { pools = 0 })))
        client
      ∙ ap
          (λ x. continue x (λ _.
            close_redis o >>= λ _. on_success o o.engine_disposes (λ c. record c { pools = 0 })))
          producer
      ∙ ap (λ x. continue x (λ _. on_success o o.engine_disposes (λ c. record c { pools = 0 })))
          redis
      ∙ engine

  -- A cleanup that succeeds after a body, whether or not the body has raised.
  pub cleaned :
      (cleanup : Action (Host W) (Unit {0})) (out : Result (Unit {0}) × Host W) (h' : Host W)
      → cleanup out.1 ≡ (ok tt, h')
      → (then_clean out cleanup).1 ≡ h'
  cleaned cleanup (ok a, s) h' done = rw done refl
  cleaned cleanup (err e, s) h' done = rw done refl

  pub start_producer-ok :
      (h : Host W)
      → o.producer_starts ≡ ok tt
      → start_producer o h
        ≡ (ok tt, record h { producer_set = true; opened = with_producer h.opened })
  unfolding start_producer
  start_producer-ok h e = rw e refl

  pub start_producer-err :
      (h : Host W) (x : Error)
      → o.producer_starts ≡ err x
      → start_producer o h
        ≡ (err x, record h { producer_set = true; opened = failed_producer o h.opened })
  unfolding start_producer
  start_producer-err h x e = rw e refl
