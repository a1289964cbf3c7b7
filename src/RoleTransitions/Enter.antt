-- ===== src/RoleTransitions/Enter.antt =====
-- mstp.c: the functions `PRTSM_to_X`, without the call of `PRTSM_runr` at their end.
use mstpd.Prelude.{◌*◌, true, false, List, map, ◌==◌, if◌then◌else◌}
use mstpd.Enums.{PortRole, PrtsmState}
use mstpd.Types.{PerTreePort, Port}
use mstpd.RoleTransitions.View.{RoleView, Delays}

-- 13.26.15 and 13.26.13 at the other ports of the tree.
unfoldable pub sync_all : List PerTreePort → List PerTreePort
sync_all = map (λ (p : PerTreePort). record p { sync = true })

unfoldable pub re_root_all : List PerTreePort → List PerTreePort
re_root_all = map (λ (p : PerTreePort). record p { re_root = true })

-- `newInfoXst = TRUE`.
abbrev pub new_info_xst : PerTreePort → Port → Port
new_info_xst p prt =
    if p.mstid == 0 then record prt { new_info = true } else record prt { new_info_msti = true }

module _ (c : Delays) (v : RoleView) where
  unfoldable pub to_init_port : RoleView
  to_init_port = record v {
    me = record (v.me) {
      prtsm_state = PrtsmState.init_port;
      role = PortRole.disabled;
      learn = false;
      forward = false;
      synced = false;
      sync = true;
      re_root = true;
      rr_while = c.fwd_delay;
      fd_while = c.max_age;
      rb_while = 0;
    };
  }

  unfoldable pub to_disabled_port : RoleView
  to_disabled_port = record v {
    me = record (v.me) {
      prtsm_state = PrtsmState.disabled_port;
      fd_while = c.max_age;
      synced = true;
      rr_while = 0;
      sync = false;
      re_root = false;
    };
  }

  unfoldable pub to_master_learn : RoleView
  to_master_learn = record v {
    me = record (v.me) {
      prtsm_state = PrtsmState.master_learn;
      learn = true;
      fd_while = c.forward_delay;
    };
  }

  unfoldable pub to_master_discard : RoleView
  to_master_discard = record v {
    me = record (v.me) {
      prtsm_state = PrtsmState.master_discard;
      learn = false;
      forward = false;
      disputed = false;
      fd_while = c.forward_delay;
    };
  }

  unfoldable pub to_root_learn : RoleView
  to_root_learn = record v {
    me = record (v.me) {
      prtsm_state = PrtsmState.root_learn;
      fd_while = c.forward_delay;
      learn = true;
    };
  }

  unfoldable pub to_root_port : RoleView
  to_root_port = record v {
    me = record (v.me) {
      prtsm_state = PrtsmState.root_port;
      role = PortRole.root;
      rr_while = c.fwd_delay;
    };
  }

  -- 13.25.c: the edge delay is written for the CIST only.
  unfoldable pub to_designated_propose : RoleView
  to_designated_propose = record v {
    me = record (v.me) { prtsm_state = PrtsmState.designated_propose; proposing = true };
    port =
        if v.me.mstid == 0
        then record (v.port) {
          edge_delay_while =
              if v.port.oper_point_to_point_mac
              then c.migrate_time
              else v.me.designated_times.max_age;
          new_info = true;
        }
        else record (v.port) { new_info_msti = true };
  }

  unfoldable pub to_designated_learn : RoleView
  to_designated_learn = record v {
    me = record (v.me) {
      prtsm_state = PrtsmState.designated_learn;
      learn = true;
      fd_while = c.forward_delay;
    };
  }

  unfoldable pub to_designated_discard : RoleView
  to_designated_discard = record v {
    me = record (v.me) {
      prtsm_state = PrtsmState.designated_discard;
      learn = false;
      forward = false;
      disputed = false;
      fd_while = c.forward_delay;
    };
  }

  unfoldable pub to_backup_port : RoleView
  to_backup_port = record v {
    me = record (v.me) { prtsm_state = PrtsmState.backup_port; rb_while = 2 * c.hello_time };
  }

  unfoldable pub to_alternate_port : RoleView
  to_alternate_port = record v {
    me = record (v.me) {
      prtsm_state = PrtsmState.alternate_port;
      fd_while = c.forward_delay;
      synced = true;
      rr_while = 0;
      sync = false;
      re_root = false;
    };
  }

module _ (v : RoleView) where
  unfoldable pub to_disable_port : RoleView
  to_disable_port = record v {
    me = record (v.me) {
      prtsm_state = PrtsmState.disable_port;
      role = PortRole.disabled;
      learn = false;
      forward = false;
    };
  }

  unfoldable pub to_master_proposed : RoleView
  to_master_proposed = record v {
    me = record (v.me) { prtsm_state = PrtsmState.master_proposed; sync = true; proposed = false };
    peers = sync_all v.peers;
  }

  unfoldable pub to_master_agreed : RoleView
  to_master_agreed = record v {
    me = record (v.me) {
      prtsm_state = PrtsmState.master_agreed;
      proposed = false;
      sync = false;
      agree = true;
    };
  }

  unfoldable pub to_master_synced : RoleView
  to_master_synced = record v {
    me = record (v.me) {
      prtsm_state = PrtsmState.master_synced;
      rr_while = 0;
      synced = true;
      sync = false;
    };
  }

  unfoldable pub to_master_retired : RoleView
  to_master_retired = record v {
    me = record (v.me) { prtsm_state = PrtsmState.master_retired; re_root = false };
  }

  unfoldable pub to_master_forward : RoleView
  to_master_forward = record v {
    me = record (v.me) {
      prtsm_state = PrtsmState.master_forward;
      forward = true;
      fd_while = 0;
      agreed = v.port.send_rstp;
    };
  }

  unfoldable pub to_master_port : RoleView
  to_master_port = record v {
    me = record (v.me) { prtsm_state = PrtsmState.master_port; role = PortRole.master };
  }

  unfoldable pub to_root_proposed : RoleView
  to_root_proposed = record v {
    me = record (v.me) { prtsm_state = PrtsmState.root_proposed; sync = true; proposed = false };
    peers = sync_all v.peers;
  }

  unfoldable pub to_root_agreed : RoleView
  to_root_agreed = record v {
    me = record (v.me) {
      prtsm_state = PrtsmState.root_agreed;
      proposed = false;
      sync = false;
      agree = true;
    };
    port = new_info_xst v.me v.port;
  }

  unfoldable pub to_root_synced : RoleView
  to_root_synced = record v {
    me = record (v.me) { prtsm_state = PrtsmState.root_synced; synced = true; sync = false };
  }

  unfoldable pub to_reroot : RoleView
  to_reroot = record v {
    me = record (v.me) { prtsm_state = PrtsmState.reroot; re_root = true };
    peers = re_root_all v.peers;
  }

  unfoldable pub to_root_forward : RoleView
  to_root_forward = record v {
    me = record (v.me) { prtsm_state = PrtsmState.root_forward; fd_while = 0; forward = true };
  }

  unfoldable pub to_rerooted : RoleView
  to_rerooted = record v {
    me = record (v.me) { prtsm_state = PrtsmState.rerooted; re_root = false };
  }

  unfoldable pub to_designated_agreed : RoleView
  to_designated_agreed = record v {
    me = record (v.me) {
      prtsm_state = PrtsmState.designated_agreed;
      proposed = false;
      sync = false;
      agree = true;
    };
    port = new_info_xst v.me v.port;
  }

  unfoldable pub to_designated_synced : RoleView
  to_designated_synced = record v {
    me = record (v.me) {
      prtsm_state = PrtsmState.designated_synced;
      rr_while = 0;
      synced = true;
      sync = false;
    };
  }

  unfoldable pub to_designated_retired : RoleView
  to_designated_retired = record v {
    me = record (v.me) { prtsm_state = PrtsmState.designated_retired; re_root = false };
  }

  unfoldable pub to_designated_forward : RoleView
  to_designated_forward = record v {
    me = record (v.me) {
      prtsm_state = PrtsmState.designated_forward;
      forward = true;
      fd_while = 0;
      agreed = v.port.send_rstp;
    };
  }

  unfoldable pub to_designated_port : RoleView
  to_designated_port = record v {
    me = record (v.me) { prtsm_state = PrtsmState.designated_port; role = PortRole.designated };
  }

  unfoldable pub to_block_port : RoleView
  to_block_port = record v {
    me = record (v.me) {
      prtsm_state = PrtsmState.block_port;
      role = v.me.selected_role;
      learn = false;
      forward = false;
    };
  }

  unfoldable pub to_alternate_proposed : RoleView
  to_alternate_proposed = record v {
    me = record (v.me) {
      prtsm_state = PrtsmState.alternate_proposed;
      sync = true;
      proposed = false;
    };
    peers = sync_all v.peers;
  }

  unfoldable pub to_alternate_agreed : RoleView
  to_alternate_agreed = record v {
    me = record (v.me) {
      prtsm_state = PrtsmState.alternate_agreed;
      proposed = false;
      agree = true;
    };
    port = new_info_xst v.me v.port;
  }

-- The function that a rule calls, by the state that it enters.
unfoldable pub enter : Delays → PrtsmState → RoleView → RoleView
unfolding to_init_port to_disabled_port to_master_learn to_master_discard to_root_learn to_root_port
    to_designated_propose to_designated_learn to_designated_discard to_backup_port to_alternate_port
    to_disable_port to_master_proposed to_master_agreed to_master_synced to_master_retired
    to_master_forward to_master_port to_root_proposed to_root_agreed to_root_synced to_reroot
    to_root_forward to_rerooted to_designated_agreed to_designated_synced to_designated_retired
    to_designated_forward to_designated_port to_block_port to_alternate_proposed to_alternate_agreed
enter c PrtsmState.init_port v = to_init_port c v
enter c PrtsmState.disable_port v = to_disable_port v
enter c PrtsmState.disabled_port v = to_disabled_port c v
enter c PrtsmState.master_proposed v = to_master_proposed v
enter c PrtsmState.master_agreed v = to_master_agreed v
enter c PrtsmState.master_synced v = to_master_synced v
enter c PrtsmState.master_retired v = to_master_retired v
enter c PrtsmState.master_forward v = to_master_forward v
enter c PrtsmState.master_learn v = to_master_learn c v
enter c PrtsmState.master_discard v = to_master_discard c v
enter c PrtsmState.master_port v = to_master_port v
enter c PrtsmState.root_proposed v = to_root_proposed v
enter c PrtsmState.root_agreed v = to_root_agreed v
enter c PrtsmState.root_synced v = to_root_synced v
enter c PrtsmState.reroot v = to_reroot v
enter c PrtsmState.root_forward v = to_root_forward v
enter c PrtsmState.root_learn v = to_root_learn c v
enter c PrtsmState.rerooted v = to_rerooted v
enter c PrtsmState.root_port v = to_root_port c v
enter c PrtsmState.designated_propose v = to_designated_propose c v
enter c PrtsmState.designated_agreed v = to_designated_agreed v
enter c PrtsmState.designated_synced v = to_designated_synced v
enter c PrtsmState.designated_retired v = to_designated_retired v
enter c PrtsmState.designated_forward v = to_designated_forward v
enter c PrtsmState.designated_learn v = to_designated_learn c v
enter c PrtsmState.designated_discard v = to_designated_discard c v
enter c PrtsmState.designated_port v = to_designated_port v
enter c PrtsmState.block_port v = to_block_port v
enter c PrtsmState.backup_port v = to_backup_port c v
enter c PrtsmState.alternate_proposed v = to_alternate_proposed v
enter c PrtsmState.alternate_agreed v = to_alternate_agreed v
enter c PrtsmState.alternate_port v = to_alternate_port c v
