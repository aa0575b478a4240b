-- ===== src/Tests/Host.antt =====
-- Tests of the kernel module as a whole: src/tcp_vanilla.c with two sockets.
use spine_kernel.Prelude.{[], ℕ, ◌≡◌, ◌≢◌, refl, true, false, Option, none, some, pos, arith}
use spine_kernel.Datapath.State.{SpineConnection, spine_vanilla}
use spine_kernel.Datapath.Registry.{conn_at}
use spine_kernel.Load.{Loader, register, connect, configure, preset}
use spine_kernel.Load.Outcome.{loaded, holding}
use spine_kernel.Netlink.{spine_nl_sk}
use spine_kernel.Tcp.{TcpSock, consult, set_up, flow_of}
use spine_kernel.Tcp.Vanilla.{
  Vanilla, vanilla_name, vanilla_init, vanilla_reset, vanilla_cong_control, lat_inflation,
}
use spine_kernel.Tcp.Vanilla.Safety.{IsHealthy}
use spine_kernel.Tcp.Ops.{IsLawful, WithoutFetch}
use spine_kernel.Tcp.Ops.Vanilla.{
  vanilla, vanilla_callback, VanillaCall, cong_control, vanilla-IsLawful,
}
use spine_kernel.Tcp.Ops.Neo
use spine_kernel.Tcp.Ops.Neo.{neo, neo-IsLawful}
use spine_kernel.Tcp.Neo.Ring.{IsRing}
use spine_kernel.Host.{Host, Event, takes_up, calls, arrives, step, May, Reach, here, next}
use spine_kernel.Host.Sound.{IsSound}
use spine_kernel.Host.Agent.{params_msg, step-vanilla_set_params}
use spine_kernel.Host.Runs.{loaded_host, loaded-IsSound, register-step, step-IsAside, one_owner}
use spine_kernel.Tests.Fixtures.{
  all_set, open_conn, quiet_state, kernel, tcp_kernel, sock, sample, running,
}
use spine_kernel.Tests.Load.{loader}
use spine_kernel.Tests.Vanilla.{at_work}

abbrev Provided : {E : Type 0} → E → TcpSock → Type 0
Provided e tp = Unit {0}

-- A load in which the memory of the datapath holds no pointer to measurements.
abbrev zeroed : Loader
zeroed = record loader {
  raw = record loader.raw { pointers = record all_set { fetch_measurements = false } };
}

abbrev start : Host Vanilla
start = loaded_host (holding true) (loaded false zeroed)

abbrev first : Event Vanilla (Unit {0}) VanillaCall
first = takes_up kernel tt 77 sock at_work

abbrev or_start : Option (Host Vanilla) → Host Vanilla
or_start none = start
or_start (some h) = h

abbrev one : Host Vanilla
one = or_start (step (vanilla tcp_kernel) first start)

loads : register false zeroed ≡ some (pos 0, holding true, loaded false zeroed)
unfolding register connect configure preset spine_nl_sk running
loads = refl

one_socket : Reach (vanilla tcp_kernel) Provided Provided start one
unfolding step vanilla_init vanilla_reset running configure preset
one_socket = next first here (refl, tt) refl

abbrev second : Event Vanilla (Unit {0}) VanillaCall
second = takes_up kernel tt 88 sock at_work

abbrev two : Host Vanilla
two = or_start (step (vanilla tcp_kernel) second one)

two_sockets : Reach (vanilla tcp_kernel) Provided Provided start two
unfolding step vanilla_init vanilla_reset running configure preset
two_sockets = next second one_socket (refl, tt) refl

-- The fields of a socket that `vanilla_init` has set up.
abbrev used : TcpSock
used = set_up tcp_kernel sock

abbrev fresh_state : Vanilla
unfolding vanilla_reset
fresh_state = record (vanilla_reset at_work) { conn = some 0 }

called : May (vanilla tcp_kernel) Provided Provided (calls kernel 77 (cong_control sample)) two
unfolding step vanilla_init vanilla_reset running configure preset
called = (used, fresh_state, refl, tt)

unset : WithoutFetch (loaded false zeroed).pointers
unfolding configure preset
unset = refl

register-step_example :
    (step (vanilla tcp_kernel) (calls kernel 77 (cong_control sample)) two ≢ none)
    × ((h' : Host Vanilla)
        → step (vanilla tcp_kernel) (calls kernel 77 (cong_control sample)) two ≡ some h'
        → IsSound (vanilla tcp_kernel) IsHealthy h')
register-step_example =
    let (runs, sound, _) =
      register-step (vanilla tcp_kernel) IsHealthy WithoutFetch Provided Provided
        (vanilla-IsLawful tcp_kernel) false zeroed loads refl unset two_sockets
        (calls kernel 77 (cong_control sample)) called in
    (runs refl, sound)

abbrev on_first : Event Vanilla (Unit {0}) VanillaCall
on_first = calls kernel 77 (cong_control sample)

abbrev moved : Host Vanilla
moved = or_start (step (vanilla tcp_kernel) on_first two)

moves : step (vanilla tcp_kernel) on_first two ≡ some moved
unfolding step vanilla_init vanilla_reset running configure preset vanilla_callback
    vanilla_cong_control consult lat_inflation
moves = refl

second_entry : two.socks 88 ≡ some (used, record fresh_state { conn = some 1 })
unfolding step vanilla_init vanilla_reset running configure preset
second_entry = refl

step-IsAside_example :
    (moved.socks 88 ≡ some (used, record fresh_state { conn = some 1 }))
    × (conn_at moved.dp 1 ≡ conn_at two.dp 1)
step-IsAside_example =
    step-IsAside (vanilla tcp_kernel) IsHealthy WithoutFetch Provided Provided
      (vanilla-IsLawful tcp_kernel) false zeroed loads refl unset two_sockets on_first moved 77 88
      used (record fresh_state { conn = some 1 }) 1 called moves refl (omega arith) second_entry
      refl

abbrev second_sk : ℕ
second_sk = 88

one_owner_example :
    (second_sk ≡ second_sk)
    × (c : SpineConnection) × (conn_at two.dp 1 ≡ some c)
    × (c.index ≡ 2)
    × (c.impl ≡ 88)
    × (c.flow_info.alg ≡ spine_vanilla)
one_owner_example =
    one_owner (vanilla tcp_kernel) IsHealthy WithoutFetch Provided Provided
      (vanilla-IsLawful tcp_kernel) false zeroed loads refl unset two_sockets 88 88 used used
      (record fresh_state { conn = some 1 }) (record fresh_state { conn = some 1 }) 1 second_entry
      second_entry refl refl

abbrev first_conn : SpineConnection
first_conn = record open_conn {
  last_create_msg_sent = 50;
  flow_info = flow_of spine_vanilla vanilla_name sock;
  impl = 77;
}

first_conn_at : conn_at two.dp 0 ≡ some first_conn
unfolding step vanilla_init vanilla_reset running configure preset
first_conn_at = refl

first_entry : two.socks 77 ≡ some (used, fresh_state)
unfolding step vanilla_init vanilla_reset running configure preset
first_entry = refl

two-IsSound : IsSound (vanilla tcp_kernel) IsHealthy two
two-IsSound =
    loaded-IsSound (vanilla tcp_kernel) IsHealthy WithoutFetch Provided Provided
      (vanilla-IsLawful tcp_kernel) false zeroed loads refl unset two_sockets

bound : two.dp.pointers.set_params ≡ true
unfolding step vanilla_init vanilla_reset running configure preset
bound = refl

reads : two.netlink.reader ≡ true
unfolding step vanilla_init vanilla_reset running configure preset
reads = refl

step-vanilla_set_params_example :
    (h₁ : Host Vanilla) × (h₂ : Host Vanilla) × (tp' : TcpSock) × (ca' : Vanilla) × (step
        (vanilla tcp_kernel)
        (arrives (params_msg 80 1 60 300 100 800 []))
        two
      ≡ some h₁)
    × (step (vanilla tcp_kernel) (calls kernel 77 (cong_control sample)) h₁ ≡ some h₂)
    × (h₂.socks 77 ≡ some (tp', ca'))
    × (ca'.alpha ≡ 60)
    × (ca'.beta ≡ 300)
    × (ca'.gamma ≡ 200)
    × (ca'.delta ≡ 800)
    × (h₂.socks 88 ≡ two.socks 88)
unfolding fresh_state
step-vanilla_set_params_example =
    step-vanilla_set_params tcp_kernel kernel two 77 0 80 used fresh_state first_conn quiet_state
      sample 60 300 100 800 [] 88 two-IsSound reads bound first_entry refl first_conn_at refl refl
      refl
      (
        (omega arith, omega arith),
        (
          (omega arith, omega arith),
          ((omega arith, omega arith), ((omega arith, omega arith), tt)),
        ),
      )
      (omega arith) (omega arith) refl refl refl

-- The contracts of vanilla and neo.
vanilla-IsLawful_example : IsLawful (vanilla tcp_kernel) IsHealthy WithoutFetch Provided Provided
vanilla-IsLawful_example = vanilla-IsLawful tcp_kernel

neo-IsLawful_example : IsLawful (neo tcp_kernel) IsRing (λ ptrs. Unit {0}) Neo.CanOpen Neo.CanCall
neo-IsLawful_example = neo-IsLawful tcp_kernel
