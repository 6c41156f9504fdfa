-- ===== src/App/Options/Stable/Sending.antt =====
-- The menu handlers of src/main.cpp that send messages keep the managers stable.
use text.Mathlib.Text.{◌==◌ as str_eq}
use peer_to_peer_network_ove.Prelude.{subst, sym, ℕ, if◌then◌else◌, List}
use peer_to_peer_network_ove.Prelude.Int.{ℤ, pos}
use peer_to_peer_network_ove.Common.{NodeId, TimePoint}
use peer_to_peer_network_ove.Outcome.{ok, ◌>>=◌}
use peer_to_peer_network_ove.Outcome.Holds.{Keeps, >>=-Keeps, if-Keeps}
use peer_to_peer_network_ove.Network.{Poco}
use peer_to_peer_network_ove.Network.Isolation.{IsSilent}
use peer_to_peer_network_ove.Router.{
  route_message, flood_message, get_routing_table, update_routing_table, is_reachable,
  get_hop_count,
}
use peer_to_peer_network_ove.Router.State.{direct, shortest_path}
use peer_to_peer_network_ove.Router.Isolation.{
  route_message-Keeps, flood_message-Keeps, get_routing_table-Keeps, update_routing_table-Keeps,
  is_reachable-Keeps, get_hop_count-Keeps,
}
use peer_to_peer_network_ove.Reliable.{send_reliable_message, retry_pending_messages}
use peer_to_peer_network_ove.Reliable.Isolation.{
  send_reliable_message-network, retry_pending_messages-IsSilent,
}
use peer_to_peer_network_ove.Exchange.{send_data, cancel_transfer}
use peer_to_peer_network_ove.Exchange.Isolation.{send_data-Keeps, cancel_transfer-Keeps}
use peer_to_peer_network_ove.Exchange.State.{DataChunk, Exchange}
use peer_to_peer_network_ove.App.State.{App, in_router, in_exchange, in_reliable}
use peer_to_peer_network_ove.App.State.Stable.{
  IsStableApp, in_router-Keeps, in_exchange-Keeps, in_reliable-Keeps,
}
use peer_to_peer_network_ove.App.Options.{
  Answers, is_option, nothing, ignore, text_message, handle_routing_option,
  handle_reliable_messaging_option, sample, handle_data_exchange_option,
}
use peer_to_peer_network_ove.App.Options.Stable.{ignore-Keeps, nothing-Keeps}

module _ (id : NodeId) where
  abbrev P : App → Type 0
  P = IsStableApp id

  reachability-Keeps :
      (k : NodeId)
      → Keeps P (
          in_router (is_reachable k) >>= λ reachable.
          if reachable then ignore (in_router (get_hop_count k)) else nothing)
  reachability-Keeps k =
      let hops = ignore (in_router (get_hop_count k)) in
      >>=-Keeps P (in_router (is_reachable k)) (λ reachable. if reachable then hops else nothing)
        (in_router-Keeps id (is_reachable k) (is_reachable-Keeps id k))
        (λ reachable.
          if-Keeps P reachable hops nothing
            (ignore-Keeps id (in_router (get_hop_count k))
              (in_router-Keeps id (get_hop_count k) (get_hop_count-Keeps id k)))
            (nothing-Keeps id))

  module _ (env : Poco) (now : TimePoint) where
    pub handle_routing_option-Keeps :
        (option : ℤ) (a : Answers) → Keeps P (handle_routing_option env now option a)
    unfolding handle_routing_option
    handle_routing_option-Keeps option a =
        if-Keeps P (is_option 1 option) _ _
          (λ s h.
            let m = text_message a.node_id a.text now s in
            ignore-Keeps id (in_router (route_message env m shortest_path now))
              (in_router-Keeps id (route_message env m shortest_path now)
                (route_message-Keeps id env m shortest_path now))
              s h)
          (if-Keeps P (is_option 2 option) _ _
            (λ s h.
              let m = text_message a.node_id a.text now s in
              ignore-Keeps id (in_router (route_message env m direct now))
                (in_router-Keeps id (route_message env m direct now)
                  (route_message-Keeps id env m direct now))
                s h)
            (if-Keeps P (is_option 3 option) _ _
              (λ s h.
                let m = text_message 0 a.text now s in
                ignore-Keeps id (in_router (flood_message env m now))
                  (in_router-Keeps id (flood_message env m now) (flood_message-Keeps id env m now))
                  s h)
              (if-Keeps P (is_option 4 option) _ _
                (ignore-Keeps id (in_router get_routing_table)
                  (in_router-Keeps id get_routing_table (get_routing_table-Keeps id)))
                (if-Keeps P (is_option 5 option) _ _
                  (in_router-Keeps id (update_routing_table now)
                    (update_routing_table-Keeps id now))
                  (if-Keeps P (is_option 6 option) _ _ (reachability-Keeps a.node_id)
                    (nothing-Keeps id))))))

    pub handle_reliable_messaging_option-Keeps :
        (option : ℤ) (a : Answers) → Keeps P (handle_reliable_messaging_option env now option a)
    unfolding handle_reliable_messaging_option
    handle_reliable_messaging_option-Keeps option a =
        if-Keeps P (is_option 1 option) _ _
          (λ s h.
            let m = text_message a.node_id a.text now s in
            let send = send_reliable_message env a.node_id m a.random now in
            ignore-Keeps id (in_reliable send)
              (in_reliable-Keeps id send (λ r q.
                subst IsSilent
                  (sym (send_reliable_message-network env now a.node_id m a.random r q)) q))
              s h)
          (if-Keeps P (is_option 3 option) _ _
            (in_reliable-Keeps id (λ r. (tt, retry_pending_messages env (pos 30) (pos 3) now r))
              (retry_pending_messages-IsSilent env now (pos 30) (pos 3)))
            (nothing-Keeps id))

    pub handle_data_exchange_option-Keeps :
        (object_bytes : DataChunk → List ℕ) (option : ℤ) (a : Answers)
        → Keeps P (handle_data_exchange_option env now object_bytes option a)
    unfolding handle_data_exchange_option
    handle_data_exchange_option-Keeps object_bytes option a =
        let data_type = if str_eq a.data_type "" then "generic" else a.data_type in
        let send =
          send_data env object_bytes now a.node_id (sample env now a.size) data_type a.random in
        let cancel = λ (x : Exchange). ok (cancel_transfer a.id x) in
        if-Keeps P (is_option 1 option) _ _
          (ignore-Keeps id (in_exchange send) (
            in_exchange-Keeps id send (
              send_data-Keeps id env object_bytes now a.node_id (sample env now a.size) data_type
                a.random)))
          (if-Keeps P (is_option 3 option) _ _
            (ignore-Keeps id (in_exchange cancel)
              (in_exchange-Keeps id cancel (cancel_transfer-Keeps id a.id)))
            (nothing-Keeps id))
