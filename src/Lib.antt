-- ===== src/Lib.antt =====
-- The Python tools of the repository around Byzantine reliable broadcast on partially connected
-- networks: the graph generators, the graph query that the simulated nodes call, and the scripts
-- that run experiments and evaluate their logs.
--
-- Parts, and how they interact:
-- - code3/generateGraphs.py builds the networks of the experiments. `GenerateGraphs.Defs` models
--   its functions: `generate_generalized_wheel`, `generate_multipartite_wheel`, and the loop of
--   `generate_KRegularKConnectedRandomGraph` as `generate_k_regular`.
--   BroadcastSign/simulations/generateGraphs.py is the same file.
-- - BroadcastSign/simulations/disjointPaths.py is run by a simulated node (BroadcastSign/src) with
--   a file of the messages it has received, and decides whether the node may deliver.
--   `DisjointPaths.Defs` models the script from the lines of that file to the digit that it writes;
--   disjointPathsToSource.py is the same script for broadcaster 0.
-- - code3/getStats.py computes the statistics of an experiment from the files that the servers
--   write to log/. `GetStats.Defs` models `getLatencies` as `get_latencies`,
--   `getNetworkConsumption`, `getNumEffectiveBroadcasts` and `getNumDelivers` as
--   `get_network_consumption`, `effective_broadcasts` and `num_delivers`. A kind of log is a
--   function from the server's number to the lines of its file, nothing where the file is missing.
--   A time is a natural number; an average is the quotient of the sum, cut to an integer as the
--   source's `int` does, and `int(0.9 * n)` is `9 * n / 10`.
-- - code3/process_results.py reads the results of all experiments and keeps the best configurations
--   of each setting. `ProcessResults.Defs` models its variables (`State`), the table update
--   (`update_top`), the two largest values (`update_maxima`) and the loop (`process_lines`); a line
--   of the file is the kind of line it is, with the values that the script reads from it.
--   `ProcessResults.Ids` models the sorting of the tables and the numbers of the configurations,
--   `ProcessResults.Proportions` the counts of the options in the tables of a setting; the
--   splitting and joining of texts at tabs are parameters.
-- - code3/process_results_MBD_7_11.py compares configurations with the base one. `ProcessMbd.Defs`
--   models its loop over the results (`process_lines`), with the nested dictionaries as functions
--   of the two keys, a line of the file carrying what its columns are read as, or the exception
--   that this raises, and `ProcessMbd.Compare` the function `compare`.
--   code3/process_results_table2.py has nearly the same loop, which `ProcessTable2.Defs` models
--   over the same state.
-- - code3/process_cpumem.py keeps the largest processor and memory use for each size of network.
--   `ProcessCpumem.Defs` models the script from the lines of its file on.
-- - code3/kpasted.py builds a tree, and a graph of n nodes from copies of it that share their
--   leaves. `KPasted.Defs` models `generate_k_pasted` up to the end of its expansion loop, as
--   `expand_tree`: the variables of the loop are the record `State`, and a round of it is
--   `iterate`. `KPasted.Paste` models the rest (`paste`), without the attributes of the graph's
--   nodes and the list of nodes to analyze. BroadcastSign/simulations/kpasted.py is the same file.
-- - code3/kdiamond.py grows the tree of a k-diamond graph in six phases. `KDiamond.Defs` models the
--   variables as the record `State`, each phase as a function (`phase0_expand_root` to
--   `phase5_new_shared`), and a round of the loop as `run_phase`. The phases 3 and 4 call each
--   other: `depth` is the number of such nested calls that the interpreter allows, and two are
--   enough. `KDiamond.Paste` models the graph that is made from the tree (`make_graph`), without
--   the attributes of its nodes and the list of nodes to analyze.
--   BroadcastSign/simulations/kdiamond.py is the same file.
-- - BroadcastSign/simulations/randomgraph_benchAllOptions.py simulates networks of many sizes with
--   each option alone. `Simulation.Texts`, `Simulation.Ned` and `Simulation.Ini` model the names
--   and the two files that it writes for a simulation (`print_omnet_links`, `ned_file`,
--   `ini_file`), a text being a list of pieces. `Simulation.Queue` models the loops of `runParams`
--   that fill the queue, `Simulation.Worker` the function `runOneConfig` and what the worker does
--   with a configuration, and `Simulation.Pool` the threads, the queue and the lock as a step
--   relation. The dictionaries keyed by a thread are functions of its number; a configuration is
--   the key of its tables, and only the thread that took it uses them. The simulator and its files
--   are the parameter `Surroundings`; the number of simulations so far is a clock, so that each may
--   end in another way. The two steps `complete` and `fail` of a thread stand for all that it does
--   with a configuration, and in them the pairs of `lock.acquire` and `lock.release` are one;
--   `fail` is an exception anywhere in that, in `runOneConfig` as well. The code outside the lock
--   starts the simulator and is taken not to raise.
-- - BroadcastSign/simulations/randomgraph_scalability.py is a variant for large networks, of which
--   `Simulation.Scalability` models the two further configurations and the choice of the
--   parameters.
-- - code3/benchEachOption.py and code3/benchEachOptionAlone_7_11.py run an experiment for each of
--   many commands. `Benchmarks.Commands` models the sequence of the commands (`each_option`,
--   `each_option_alone`), a command being the values that `argsToCmd` prints, without the
--   constants.
-- - networkx is third-party code. `Nx.Api`, `Nx.Tree` and `Nx.Labelled` state its classes as
--   records of operations with the documented behaviour that the proofs use, and every model takes
--   such a record. `Nx.Store`, `Nx.TreeStore` and `Nx.LabelledStore` hold implementations on lists,
--   for the tests.
--
-- Conventions. Python integers that are labels, counters or indices are natural numbers. An
-- exception that the script does not catch is a `raise` of `Base.Errors`. `for` loops are
-- `for_range` and recursion over the rounds left, so that they need no fuel; the one `while` loop
-- that depends on random graphs, `draw_until`, takes fuel, and its theorem says that fuel is enough
-- as soon as it covers the first acceptable graph. The `while` loop of `runOneConfig` takes the
-- same fuel, which is enough if one of that many simulations in a row leaves its files. Text is
-- modelled from the parts of a line on, as `int` reads them.
--
-- Base holds what the models share: tests (`ltb`, `leb`, `==`), lists with native lengths, loops,
-- errors, and Python dictionaries as association lists (`Base.Dicts`), where a missing key is a
-- KeyError. A float that is read from a file and only compared is an integer (`Base.Int`) in the
-- unit of its last digit.
--
-- Not modelled: floats as results (`getThroughput`, `getNumMsgs`), plotting and printing, the
-- pickled copies of tables, the processes and containers that run an experiment, the C++ nodes
-- (code3/App, BroadcastSign/src) and the copy of the library salticidae.
pub mod Base
pub mod Nx
pub mod GenerateGraphs
pub mod DisjointPaths
pub mod GetStats
pub mod ProcessResults
pub mod KDiamond
pub mod KPasted
pub mod ProcessMbd
pub mod ProcessTable2
pub mod ProcessCpumem
pub mod Simulation
pub mod Benchmarks
