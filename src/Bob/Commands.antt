-- ===== src/Bob/Commands.antt =====
-- client/BOB.cpp: the command handlers.
use i2pd.Prelude.{
  ℕ, ◌+◌, true, false, List, [], ◌∷◌, ◌++◌, Option, none, some, map, ◌==◌, if◌then◌else◌,
}
use i2pd.Prelude.Bytes.{codes}
use i2pd.Prelude.Assoc.{lookup, insert, erase}
use i2pd.Prelude.Dict.{Text, Dict, find, put, remove}
use i2pd.Bob.{
  OutboundTunnel, InboundTunnel, Destination, Channel, Session, Services, Result, ok, thrown, fault,
  reply_ok, reply_error, reply_data,
}

pub data Command : Type 0 where
  zap quit start stop setnick getnick newkeys getkeys setkeys getdest : Command
  outhost outport inhost inport quiet lookup_name clear list option : Command

-- `m_CommandHandlers`
abbrev pub command_handlers : Dict Command
command_handlers =
    (codes "zap", zap)
    ∷ (codes "quit", quit)
    ∷ (codes "start", start)
    ∷ (codes "stop", stop)
    ∷ (codes "setnick", setnick)
    ∷ (codes "getnick", getnick)
    ∷ (codes "newkeys", newkeys)
    ∷ (codes "getkeys", getkeys)
    ∷ (codes "setkeys", setkeys)
    ∷ (codes "getdest", getdest)
    ∷ (codes "outhost", outhost)
    ∷ (codes "outport", outport)
    ∷ (codes "inhost", inhost)
    ∷ (codes "inport", inport)
    ∷ (codes "quiet", quiet)
    ∷ (codes "lookup", lookup_name)
    ∷ (codes "clear", clear)
    ∷ (codes "list", list)
    ∷ (codes "option", option)
    ∷ []

-- `strchr (operand, '=')`
unfoldable pub split_option : Text → Option (Text × Text)
split_option [] = none
split_option (c ∷ cs) =
    if c == b'='
    then some ([], cs)
    else elim (split_option cs) [ none ↦ none | some (k, v) ↦ some (c ∷ k, v) ]

module _ {K : Type 0} where
  -- `FindDestination`, `AddDestination`
  abbrev pub find_destination : Text → Channel K → Option ℕ
  find_destination name c = find name c.destinations

  abbrev pub add_destination : Text → ℕ → Channel K → Channel K
  add_destination name p c = record c { destinations = put name p c.destinations }

  -- `BOBDestination::StopTunnels`, and `Stop`, which stops the local destination too.
  abbrev pub stop_tunnels : Destination K → Destination K
  stop_tunnels d = record d { outbound = none; inbound = none }

  -- `DeleteDestination`: the object is stopped and deleted, and its name is taken out.
  unfoldable pub delete_destination : Text → Channel K → Channel K
  delete_destination name c = elim (find name c.destinations) [
    | none ↦ c
    | some p ↦ record c { destinations = remove name c.destinations; heap = erase p c.heap }
  ]

  -- `CreateInboundTunnel`, `CreateOutboundTunnel` and `BOBDestination::Start`, as `start` calls them.
  unfoldable pub start_destination : Session K → Destination K → Destination K
  start_destination s d =
      let with_in = elim d.inbound as (λ o. Option InboundTunnel) [
        | some t ↦ some t
        | none ↦
            if s.in_port == 0 then none else some (record { port = s.in_port; started = false })
      ] in
      let with_out = elim d.outbound as (λ o. Option OutboundTunnel) [
        | some t ↦ some t
        | none ↦ elim s.address as (λ a. Option OutboundTunnel) [
          | [] ↦ none
          | c ∷ cs ↦
              if s.out_port == 0
              then none
              else some (record {
                address = s.address;
                port = s.out_port;
                is_quiet = s.is_quiet;
                started = false;
              })
        ]
      ] in
      record d {
        inbound = elim with_in as (λ o. Option InboundTunnel) [
          | none ↦ none
          | some t ↦ some (record t { started = true })
        ];
        outbound = elim with_out as (λ o. Option OutboundTunnel) [
          | none ↦ none
          | some t ↦ some (record t { started = true })
        ];
      }

  -- `new BOBDestination (CreateNewLocalDestination (m_Keys, true, &m_Options))`, under the nickname.
  abbrev allocate : Session K → ℕ × Session K
  allocate s =
      let p = s.channel.next_address in
      (
        p,
        record s {
          current = some p;
          channel = add_destination s.nickname p (record s.channel {
            next_address = p + 1;
            heap =
                insert p
                  (record {
                    keys = s.keys;
                    options = s.options;
                    is_running = true;
                    outbound = none;
                    inbound = none;
                  })
                  s.channel.heap;
          });
        },
      )

  abbrev ensured : Session K → ℕ × Session K
  ensured s = elim s.current [ none ↦ allocate s | some p ↦ (p, s) ]

  -- `StartCommandHandler`
  unfoldable pub start_command : Session K → Result (Session K)
  unfolding start_destination
  start_command s =
      let (p, s') = ensured s in
      elim (lookup p s'.channel.heap) [
        | none ↦ fault
        | some d ↦
            ok
              (record s' {
                channel = record s'.channel {
                  heap = insert p (start_destination s d) s'.channel.heap;
                };
              })
              (reply_ok (codes "tunnel starting") ∷ [])
      ]

  -- `StopCommandHandler`
  unfoldable pub stop_command : Session K → Result (Session K)
  stop_command s = elim (find_destination s.nickname s.channel) [
    | none ↦ ok s (reply_error (codes "tunnel not found") ∷ [])
    | some p ↦ elim (lookup p s.channel.heap) [
      | none ↦ fault
      | some d ↦
          ok
            (record s {
              channel = record s.channel { heap = insert p (stop_tunnels d) s.channel.heap };
            })
            (reply_ok (codes "tunnel stopping") ∷ [])
    ]
  ]

  -- `GetNickCommandHandler`: the current destination is lost if there is none of that name.
  unfoldable pub getnick_command : Text → Session K → Result (Session K)
  getnick_command operand s = elim (find_destination operand s.channel) [
    | none ↦ ok (record s { current = none }) (reply_error (codes "tunnel not found") ∷ [])
    | some p ↦ elim (lookup p s.channel.heap) [
      | none ↦ fault
      | some d ↦
          ok (record s { current = some p; keys = d.keys; nickname = operand })
            (reply_ok (codes "Nickname set to " ++ operand) ∷ [])
    ]
  ]

  -- `ListCommandHandler`
  unfoldable pub list_command : Session K → Result (Session K)
  list_command s =
      ok s
        (map (λ p. reply_data p.0) s.channel.destinations ++ reply_ok (codes "Listing done") ∷ [])

  -- `OptionCommandHandler`
  unfoldable pub option_command : Text → Session K → Result (Session K)
  unfolding split_option
  option_command operand s = elim (split_option operand) [
    | none ↦ ok s (reply_error (codes "malformed") ∷ [])
    | some (k, v) ↦ ok (record s { options = put k v s.options }) (reply_ok (codes "option") ∷ [])
  ]

  module _ (services : Services K) where
    open services use {
      create_random_keys, from_base64, public_base64, keys_base64, parse_int, get_ident_hash,
      find_lease_set,
    }

    -- `OutportCommandHandler` and `InportCommandHandler`: a bad number is an exception.
    unfoldable pub outport_command : Text → Session K → Result (Session K)
    outport_command operand s = elim (parse_int operand) [
      | none ↦ thrown s
      | some n ↦ ok (record s { out_port = n }) (reply_ok (codes "outbound port set") ∷ [])
    ]

    unfoldable pub inport_command : Text → Session K → Result (Session K)
    inport_command operand s = elim (parse_int operand) [
      | none ↦ thrown s
      | some n ↦ ok (record s { in_port = n }) (reply_ok (codes "inbound port set") ∷ [])
    ]

    abbrev lookup_ident : List ℕ → ℕ → Session K → Result (Session K)
    lookup_ident ident p s = elim (lookup p s.channel.heap) [
      | none ↦ fault
      | some d ↦ elim (find_lease_set ident) [
        | some identity ↦ ok s (reply_ok identity ∷ [])
        | none ↦ ok (record s { requests = s.requests ++ ident ∷ [] }) []
      ]
    ]

    -- `LookupCommandHandler`: a lease set that is not at hand is requested, and answered later.
    unfoldable pub lookup_command : Text → Session K → Result (Session K)
    lookup_command operand s = elim (get_ident_hash operand) [
      | none ↦ ok s (reply_error (codes "Address Not found") ∷ [])
      | some ident ↦ elim s.current [
        | none ↦ ok s (reply_error (codes "Address Not found") ∷ [])
        | some p ↦ lookup_ident ident p s
      ]
    ]

    -- The callback of `RequestDestination`.
    unfoldable pub lookup_completed : Option Text → Session K → Result (Session K)
    lookup_completed (some identity) s = ok s (reply_ok identity ∷ [])
    lookup_completed none s = ok s (reply_error (codes "LeaseSet Not found") ∷ [])

    -- The handlers by their commands.
    unfoldable pub run_command : Command → Text → Session K → Result (Session K)
    unfolding start_command stop_command getnick_command list_command option_command outport_command
        inport_command lookup_command delete_destination
    run_command zap operand s = ok (record s { socket_open = false; is_open = false }) []
    run_command quit operand s = ok (record s { is_open = false }) (reply_ok (codes "Bye!") ∷ [])
    run_command start operand s = start_command s
    run_command stop operand s = stop_command s
    run_command setnick operand s =
        ok (record s { nickname = operand }) (reply_ok (codes "Nickname set to " ++ operand) ∷ [])
    run_command getnick operand s = getnick_command operand s
    run_command newkeys operand s =
        let keys = create_random_keys s.keys_drawn in
        ok (record s { keys = keys; keys_drawn = s.keys_drawn + 1 })
          (reply_ok (public_base64 keys) ∷ [])
    run_command setkeys operand s =
        let keys = from_base64 s.keys operand in
        ok (record s { keys = keys }) (reply_ok (public_base64 keys) ∷ [])
    run_command getkeys operand s = ok s (reply_ok (keys_base64 s.keys) ∷ [])
    run_command getdest operand s = ok s (reply_ok (public_base64 s.keys) ∷ [])
    run_command outhost operand s =
        ok (record s { address = operand }) (reply_ok (codes "outhost set") ∷ [])
    run_command outport operand s = outport_command operand s
    run_command inhost operand s =
        ok (record s { address = operand }) (reply_ok (codes "inhost set") ∷ [])
    run_command inport operand s = inport_command operand s
    run_command quiet operand s = ok (record s { is_quiet = true }) (reply_ok (codes "quiet") ∷ [])
    run_command lookup_name operand s = lookup_command operand s
    run_command clear operand s =
        ok (record s { channel = delete_destination s.nickname s.channel })
          (reply_ok (codes "cleared") ∷ [])
    run_command list operand s = list_command s
    run_command option operand s = option_command operand s
