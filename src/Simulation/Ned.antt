-- ===== src/Simulation/Ned.antt =====
-- The topology file of a simulation, and its links.
use brb_partially_connected.Base.{ℕ, [], ◌∷◌, ◌++◌, if◌then◌else◌, for_range}
use brb_partially_connected.Nx.{GraphApi}
use brb_partially_connected.Simulation.Texts.{lit, num, Text, prefix}

-- The line of the link between two nodes.
abbrev pub link_line : ℕ → ℕ → Text
link_line i j =
    lit "cli[" ∷ num i ∷ lit "].pppg++ <--> ethernetline <--> cli[" ∷ num j ∷ lit "].pppg++;\n" ∷ []

module _ (nx : GraphApi) where
  open nx use {Graph, has_edge}

  unfoldable pub print_omnet_links : Graph → ℕ → Text
  print_omnet_links g N =
      for_range 0 N (λ i. for_range i N (λ j s. if has_edge g i j then s ++ link_line i j else s))
        []

  -- What `writeNedFile` writes.
  unfoldable pub ned_file : Graph → (N F K : ℕ) → Text
  unfolding print_omnet_links
  ned_file g N F K =
      lit "package broadcastsign.simulations;\n\n"
      ∷ lit "import inet.common.misc.ThruputMeteringChannel;\n"
      ∷ lit "import inet.networklayer.configurator.ipv4.Ipv4NetworkConfigurator;\n"
      ∷ lit "import inet.node.inet.Router;\n"
      ∷ lit "import inet.node.inet.StandardHost;\n\n"
      ∷ lit "network random_"
      ∷ (prefix N F K
          ++ (lit "\n            {\n"
              ∷ lit "            parameters:\n            int n;\n"
              ∷ lit
                  "            types:\n            channel fiberline extends ThruputMeteringChannel\n"
              ∷ lit "            {\n            delay = 1us;\n"
              ∷ lit "            datarate = 512Mbps;\n            thruputDisplayFormat = \"u\";\n"
              ∷ lit
                  "            }\n            channel ethernetline extends ThruputMeteringChannel\n"
              ∷ lit "            {\n            delay = 0.5ms;\n"
              ∷ lit "            datarate = 1Mbps;\n            thruputDisplayFormat = \"u\";\n"
              ∷ lit "            }\n            submodules:\n"
              ∷ lit "            configurator: Ipv4NetworkConfigurator {\n            parameters:\n"
              ∷ lit "            @display(\"p=100,100;is=s\");\n            }\n"
              ∷ lit "            cli[n]: StandardHost {\n            parameters:\n"
              ∷ lit
                  "            @display(\"i=device/laptop\"); //;p=250,100,col,100\");\n            }\n"
              ∷ lit "            connections:\n            "
              ∷ (print_omnet_links g N ++ lit "}" ∷ [])))
