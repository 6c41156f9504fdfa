-- ===== src/App/Menu.antt =====
-- The main menu of src/main.cpp keeps the managers stable: the submenus, and the choice between them.
use peer_to_peer_network_ove.Prelude.{ℕ, if◌then◌else◌, List, [], ◌∷◌}
use peer_to_peer_network_ove.Prelude.Int.{ℤ}
use peer_to_peer_network_ove.Common.{NodeId, TimePoint}
use peer_to_peer_network_ove.Outcome.{Action, ret}
use peer_to_peer_network_ove.Outcome.Holds.{Keeps, >>=-Keeps, if-Keeps}
use peer_to_peer_network_ove.Network.{Poco}
use peer_to_peer_network_ove.Exchange.State.{DataChunk}
use peer_to_peer_network_ove.App.State.Stable.{IsStableApp}
use peer_to_peer_network_ove.App.Options.Stable.{
  handle_discovery_option-Keeps, handle_registration_option-Keeps,
  handle_node_management_option-Keeps,
}
use peer_to_peer_network_ove.App.Options.Stable.Sending.{
  handle_routing_option-Keeps, handle_reliable_messaging_option-Keeps,
  handle_data_exchange_option-Keeps,
}
use peer_to_peer_network_ove.App.{
  App, Answers, is_option, handle_discovery_option, handle_registration_option,
  handle_node_management_option, handle_routing_option, handle_reliable_messaging_option,
  handle_data_exchange_option, submenu, handle_main_menu_option,
}

module _ (id : NodeId) (env : Poco) where
  abbrev P : App → Type 0
  P = IsStableApp id

  submenu-Keeps :
      (handle : ℤ → Answers → Action App (Unit {0}))
      → ((option : ℤ) (a : Answers) → Keeps P (handle option a))
      → (inputs : List (ℤ × Answers)) → Keeps P (submenu env handle inputs)
  unfolding submenu
  submenu-Keeps handle keep [] = λ s h. h
  submenu-Keeps handle keep ((option, a) ∷ inputs) =
      let rest = submenu env handle inputs in
      >>=-Keeps P (handle option a) (λ _. if is_option 0 option then ret tt else rest)
        (keep option a)
        (λ _.
          if-Keeps P (is_option 0 option) (ret tt) rest (λ s h. h)
            (submenu-Keeps handle keep inputs))

  pub handle_main_menu_option-Keeps :
      (object_bytes : DataChunk → List ℕ) (now : TimePoint) (option : ℤ)
      (inputs : List (ℤ × Answers))
      → Keeps P (handle_main_menu_option env object_bytes now option inputs)
  unfolding handle_main_menu_option
  handle_main_menu_option-Keeps object_bytes now option inputs =
      if-Keeps P (is_option 1 option) _ _
        (submenu-Keeps (handle_discovery_option env now) (handle_discovery_option-Keeps id env now)
          inputs)
        (if-Keeps P (is_option 2 option) _ _
          (submenu-Keeps (handle_registration_option env now)
            (handle_registration_option-Keeps id env now) inputs)
          (if-Keeps P (is_option 3 option) _ _
            (submenu-Keeps (handle_node_management_option env now)
              (handle_node_management_option-Keeps id env now) inputs)
            (if-Keeps P (is_option 4 option) _ _
              (submenu-Keeps (handle_routing_option env now)
                (handle_routing_option-Keeps id env now) inputs)
              (if-Keeps P (is_option 5 option) _ _
                (submenu-Keeps (handle_reliable_messaging_option env now)
                  (handle_reliable_messaging_option-Keeps id env now) inputs)
                (if-Keeps P (is_option 6 option) _ _
                  (submenu-Keeps (handle_data_exchange_option env now object_bytes)
                    (handle_data_exchange_option-Keeps id env now object_bytes) inputs)
                  (if-Keeps P (is_option 7 option) _ _ (λ s h. h) (λ s h. h)))))))
