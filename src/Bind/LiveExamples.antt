-- ===== src/Bind/LiveExamples.antt =====
-- A run of the program from a configuration file, with one client.
use relb.Prelude.{ℕ, ◌*◌, ◌/◌, true, false, some, List, [], ◌∷◌, ◌≡◌, refl, arith}
use relb.Prelude.Int.{pos}
use relb.Address.{IpAddress}
use relb.Socket.{Socket}
use relb.Bindable.{Calls, check_ip_bindable, check_ip_port_bindable}
use relb.Config.Lines.{check_config, check_parts, check_part, check_addresses}
use relb.Config.Examples.{lan, epoch, files, free, unprivileged, found, loaded, everywhere, backend}
use relb.ServerList.State.{new}
use relb.ServerList.GetServer.{Clock}
use relb.Admin.Mirror.{Mirrors}
use relb.Bind.State.{Bind}
use relb.Bind.Main.{configure}
use relb.Bind.Filled.{bind_of}
use relb.Bind.Execute.{Round, Listened, execute}
use relb.Bind.Live.{Live, LiveAdmin, live}
use relb.Bind.Serving.{Ends}
use relb.Bind.Room.{Places}
use relb.Bind.Together.{load_config-serves}
use relb.Bind.Examples.{accepted}
use Prim.Native.String.{String}

abbrev ratio : ℕ → ℕ → ℕ
ratio load weight = load * 1000 / weight

abbrev dial : IpAddress → ℕ → Socket
dial ip port = record { open_fd = true; fd = 9 }

abbrev text : List ℕ → String
text name = ""

abbrev clock : Clock
clock = record { session = λ i. 300; server = λ i. 300; made = 301 }

abbrev memory : Bind Live LiveAdmin
memory = record {
  admin = record {
    server = record {
      finish = false;
      peers = [];
      servers = [];
      parallel_list = false;
      posted = [];
      bind_port = 0;
      bind_ip = everywhere;
    };
    clock = λ i. 200;
    calls = 0;
  };
  addresses = [];
  admin_enabled = false;
  admin_ip = everywhere;
  admin_port = 0;
  finish = false;
  started = false;
  slist = record {
    balancer = record {
      list = new 100;
      pool = record { managers = []; peers_per_thread = 16; max_peers = 511 };
    };
    clocks = λ i. clock;
    calls = 0;
  };
}

abbrev arrival : Round
arrival = record {
  selected = pos 1;
  set = λ fd. true;
  accept = λ i. record { fd = pos 7; ip = backend; port = 5000 };
}

load_config-serves_example :
    (b : Bind Live LiveAdmin) × (bind_of lan
        (live ratio dial text)
        (configure lan (live ratio dial text) loaded memory)
      ≡ some b)
    × Mirrors b.slist.balancer.list b.admin.server
    × Ends
        (λ (e : Listened Live LiveAdmin). Places ratio dial text e.bind.slist)
        (execute (live ratio dial text) (λ i a. pos 3) (arrival ∷ []) b)
load_config-serves_example =
    load_config-serves ratio dial text lan (λ i. epoch) files free unprivileged found loaded memory
      (λ i a. pos 3) (arrival ∷ []) (refl, refl) accepted
      (record { some_peers = omega arith; some_sockets = omega arith; fits = tt })
      (unfold new in record { peers = tt; servers = tt })

-- A system on which all calls succeed.
abbrev calls : Calls
calls = record {
  socket = λ ip port. pos 3;
  reuse = λ ip port. pos 0;
  bind = λ ip port. pos 0;
  listen = λ ip port. pos 0;
}

-- The tests accept the configuration then.
passed : check_config (check_ip_bindable calls) (check_ip_port_bindable calls) loaded ≡ true
unfolding check_config check_parts check_part check_addresses check_ip_bindable
    check_ip_port_bindable
passed = refl
