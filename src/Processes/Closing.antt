-- ===== src/Processes/Closing.antt =====
-- What the processes leave open when they end.
use eventsphere.Prelude.{true, false, ◌∙◌, ℕ, ◌+◌, ◌-◌, ◌≡◌, ap, inl, inr, Bool, List}
use eventsphere.Errors.{Result, ok, Action, continue, ◌>>=◌}
use eventsphere.Processes.Connections.{
  Outside, Host, Connections, try_finally, close_redis, new_client, run_consumer, stop_producer,
  start_client, stop_client,
}
use eventsphere.Processes.Workers.{
  run_payment_worker, run_order_status_worker, run_notification_worker, run_event_sync_consumer,
  run_reservation_reaper, run_inventory_workers,
}
use eventsphere.Processes.Servers.{start_up, shut_down, lifespan}
use eventsphere.Processes.Calls.{
  outcome, Stops, Kept, added, consumer_left, failed_producer, without_producer, without_channel,
  without_redis, with_channel, with_redis, with_producer, left, left-ok, left-err, back,
  run_consumer-Kept, on_success-ok, stop_producer-ok, stop_client-ok, shut_down-ok, cleaned,
  start_producer-ok, start_producer-err,
}

module _ {W : Type 0} (o : Outside) (stops : Stops o) where
  -- What runs between start and stop closes what it opens.
  module _ (g : ℕ → ℕ) (body : Action (Host W) (Unit {0}))
      (keeps : (h : Host W) → Kept g h (body h).1) (h : Host W) where
    reaper_closes :
        (run_reservation_reaper o body h).1.opened
        ≡ left o.producer_starts
            (record h.opened { consumers = g h.opened.consumers })
            (failed_producer o h.opened)
    unfolding run_reservation_reaper
    reaper_closes = elim (outcome o.producer_starts) [
      | inr (e, failed) ↦
          ap
            (λ (x : Result (Unit {0}) × Host W).
              (continue x (λ _. try_finally body (stop_producer o))).1.opened)
            (start_producer-err o stops (record h { producer_set = false }) e failed)
          ∙ left-err o.producer_starts e _ (failed_producer o h.opened) failed
      | inl started ↦
          let h' : Host W = record h { producer_set = true; opened = with_producer h.opened } in
          let kept = keeps h' in
          ap
            (λ (x : Result (Unit {0}) × Host W).
              (continue x (λ _. try_finally body (stop_producer o))).1.opened)
            (start_producer-ok o stops (record h { producer_set = false }) started)
          ∙ ap (λ (x : Host W). x.opened)
              (cleaned o stops (stop_producer o) (body h') _
                (stop_producer-ok o stops (body h').1 kept.producer_set))
          ∙ ap without_producer kept.opened
          ∙ ap (λ n. record h.opened { producers = n; consumers = g h.opened.consumers })
              (back h.opened.producers)
          ∙ left-ok o.producer_starts (record h.opened { consumers = g h.opened.consumers }) _
              started
    ]

  workers_close :
      (tasks : Action (Host W) (Unit {0})) (h : Host W)
      → ((t : Host W) → (tasks t).1.opened.redis ≡ t.opened.redis)
      → (run_inventory_workers o tasks h).1.opened
        ≡ record (tasks (record h { opened = with_redis h.opened })).1.opened {
          redis = h.opened.redis;
        }
  unfolding run_inventory_workers
  workers_close tasks h keeps =
      let h' : Host W = record h { opened = with_redis h.opened } in
      let after : Host W = (tasks h').1 in
      ap (λ (x : Host W). x.opened)
        (cleaned o stops (close_redis o) (tasks h') _
          (on_success-ok o stops o.redis_closes without_redis after stops.redis))
      ∙ ap (λ n. record after.opened { redis = n - 1 }) (keeps h')
      ∙ ap (λ n. record after.opened { redis = n }) (back h.opened.redis)

  module _ {M : Type 0} (handler : M → Action W (Unit {0})) (offset : ℕ)
      (messages : List (M × Bool)) (h : Host W) where
    abbrev consumers : ℕ → ℕ
    consumers = added o.consumer_starts o.consumer_residue

    abbrev consumer_done : Connections
    consumer_done = consumer_left o h.opened

    payment_closes :
        (run_payment_worker o handler offset messages h).1.opened
        ≡ left o.producer_starts consumer_done (failed_producer o h.opened)
    unfolding run_payment_worker run_reservation_reaper
    payment_closes =
        reaper_closes consumers (run_consumer o handler offset messages)
          (run_consumer-Kept o stops handler offset messages) h

    abbrev both_stop : Action (Host W) (Unit {0})
    both_stop = stop_producer o >>= λ _. stop_client o

    both_stop-ok :
        (h' : Host W)
        → h'.producer_set ≡ true
        → h'.client_set ≡ true
        → both_stop h'
          ≡ (ok tt, record h' { opened = without_channel (without_producer h'.opened) })
    both_stop-ok h' is_set also =
        ap (λ x. continue x (λ _. stop_client o)) (stop_producer-ok o stops h' is_set)
        ∙ stop_client-ok o stops (record h' { opened = without_producer h'.opened }) also

    status_leaves :
        (run_order_status_worker o handler offset messages h).1.opened
        ≡ left o.producer_starts consumer_done (failed_producer o (with_channel h.opened))
    unfolding run_order_status_worker start_client
    status_leaves =
        let body : Action (Host W) (Unit {0}) = run_consumer o handler offset messages in
        let h₀ : Host W = record h {
          client_set = true;
          producer_set = false;
          opened = with_channel h.opened;
        } in
        let rest : Result (Unit {0}) × Host W → Connections =
          λ x. (continue x (λ _. try_finally body both_stop)).1.opened in
        elim (outcome o.producer_starts) [
          | inr (e, failed) ↦
              ap rest (start_producer-err o stops h₀ e failed)
              ∙ left-err o.producer_starts e consumer_done
                  (failed_producer o (with_channel h.opened)) failed
          | inl started ↦
              let h' : Host W = record h₀ {
                producer_set = true;
                opened = with_producer h₀.opened;
              } in
              let kept = run_consumer-Kept o stops handler offset messages h' in
              ap rest (start_producer-ok o stops h₀ started)
              ∙ ap (λ (x : Host W). x.opened)
                  (cleaned o stops both_stop (body h') _
                    (both_stop-ok (body h').1 kept.producer_set kept.client_set))
              ∙ ap (λ c. without_channel (without_producer c)) kept.opened
              ∙ ap
                  (λ n. record consumer_done {
                    producers = n;
                    channels = h.opened.channels + 1 - 1;
                  })
                  (back h.opened.producers)
              ∙ ap (λ n. record consumer_done { channels = n }) (back h.opened.channels)
              ∙ left-ok o.producer_starts consumer_done (failed_producer o (with_channel h.opened))
                  started
        ]

  module _ (body : Action (Host W) (Unit {0})) (keeps : (h : Host W) → Kept (λ n. n) h (body h).1)
      (h : Host W) where
    lifespan_leaves :
        (lifespan o body h).1.opened
        ≡ left o.producer_starts
            (record h.opened { pools = 0 })
            (failed_producer o (with_redis h.opened))
    unfolding lifespan start_up start_client
    lifespan_leaves =
        let h₀ : Host W = record h {
          producer_set = false;
          opened = record h.opened { redis = h.opened.redis + 1 };
        } in
        let rest : Result (Unit {0}) × Host W → Connections = λ x.
          (continue (continue x (λ _. new_client o >>= λ _. start_client o))
            (λ _. try_finally body (shut_down o))).1.opened in
        elim (outcome o.producer_starts) [
          | inr (e, failed) ↦
              ap rest (start_producer-err o stops h₀ e failed)
              ∙ left-err o.producer_starts e (record h.opened { pools = 0 })
                  (failed_producer o h₀.opened) failed
          | inl started ↦
              let h' : Host W = record h₀ {
                producer_set = true;
                client_set = true;
                opened = with_channel (with_producer h₀.opened);
              } in
              let kept = keeps h' in
              ap rest (start_producer-ok o stops h₀ started)
              ∙ ap (λ (x : Host W). x.opened)
                  (cleaned o stops (shut_down o) (body h') _
                    (shut_down-ok o stops (body h').1 kept.producer_set kept.client_set))
              ∙ ap
                  (λ c. record (without_producer (without_channel c)) {
                    redis = c.redis - 1;
                    pools = 0;
                  })
                  kept.opened
              ∙ ap
                  (λ n. record h.opened {
                    producers = n;
                    channels = h.opened.channels + 1 - 1;
                    redis = h.opened.redis + 1 - 1;
                    pools = 0;
                  })
                  (back h.opened.producers)
              ∙ ap
                  (λ n. record h.opened { channels = n; redis = h.opened.redis + 1 - 1; pools = 0 })
                  (back h.opened.channels)
              ∙ ap (λ n. record h.opened { redis = n; pools = 0 }) (back h.opened.redis)
              ∙ left-ok o.producer_starts (record h.opened { pools = 0 })
                  (failed_producer o h₀.opened) started
        ]

  -- What the workers and the API leave open, if the calls that close something succeed, however the
  -- broker's starts, the messages and the handlers end. A producer or a consumer whose start fails is
  -- not stopped, so that what the failed start leaves open stays open; but for that, the payment
  -- worker, the notification worker, the consumer of events and the reaper leave the connections
  -- that they found. The order status worker does so too if its producer starts, and else leaves
  -- also the channel of its client; the API leaves them with its pool disposed of if its producer
  -- starts, and else leaves also its Redis client. The inventory workers close their Redis client
  -- whatever else their tasks leave. `body`, what the reaper and the API run in between, closes what
  -- it opens; the tasks open and close no Redis client.
  pub processes_close :
      {M : Type 0} (handler : M → Action W (Unit {0})) (offset : ℕ) (messages : List (M × Bool))
      (body tasks : Action (Host W) (Unit {0}))
      → ((h : Host W) → Kept (λ n. n) h (body h).1)
      → ((h : Host W) → (tasks h).1.opened.redis ≡ h.opened.redis)
      → (h : Host W)
      → ((run_payment_worker o handler offset messages h).1.opened
          ≡ left o.producer_starts (consumer_left o h.opened) (failed_producer o h.opened))
        × ((run_notification_worker o handler offset messages h).1.opened
            ≡ consumer_left o h.opened)
        × ((run_event_sync_consumer o handler offset messages h).1.opened
            ≡ consumer_left o h.opened)
        × ((run_reservation_reaper o body h).1.opened
            ≡ left o.producer_starts h.opened (failed_producer o h.opened))
        × ((run_inventory_workers o tasks h).1.opened
            ≡ record (tasks (record h { opened = with_redis h.opened })).1.opened {
              redis = h.opened.redis;
            })
        × ((run_order_status_worker o handler offset messages h).1.opened
            ≡ left o.producer_starts
                (consumer_left o h.opened)
                (failed_producer o (with_channel h.opened)))
        × ((lifespan o body h).1.opened
            ≡ left o.producer_starts
                (record h.opened { pools = 0 })
                (failed_producer o (with_redis h.opened)))
  unfolding run_notification_worker run_event_sync_consumer
  processes_close handler offset messages body tasks keeps no_redis h =
      let consumer = (run_consumer-Kept o stops handler offset messages h).opened in
      (
        payment_closes handler offset messages h,
        consumer,
        consumer,
        reaper_closes (λ n. n) body keeps h,
        workers_close tasks h no_redis,
        status_leaves handler offset messages h,
        lifespan_leaves body keeps h,
      )
