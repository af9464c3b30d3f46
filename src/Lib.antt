-- ===== src/Lib.antt =====
-- The Python control plane of the laboratory: what it computes between a user's topology file and
-- the simulators that it starts, and the tools that guard and connect a run.
--
-- Parts, and how they interact:
-- * Topology, for ubsim_lab/topology.py: `compile_topology` turns a JSON document (Json.antt) into
--   the launch plan. Topology/Fields.antt has its checks of single values (`_fields`, `_list`,
--   `_integer`, `_name`, `_choice`), Topology/Nodes.antt the header and the loop over the nodes,
--   Topology/Machine.antt the machine settings and the switch, Topology/Devices.antt the loop over
--   the devices, Topology/Links.antt the direct link and the loop over the switch links,
--   Topology/Plan.antt the plan and the composition. The local variables of each loop are a record
--   (NodeState, DeviceState, LinkState) that one function per round passes on (`read_node`,
--   `read_device`, `read_link`). The children Accepted say what an accepted round did; Total that no
--   lookup misses; Named, Paired, Matched, Linked, Direct, Collected and Valid what the
--   accepted input satisfies.
-- * QemuPorts, for ubsim_lab/qemu_ports.py: the listeners of a QEMU topology.
-- * MemoryGuard, for tools/host_memory_guard.py: Capacity for `capacity_bytes`, Preflight for
--   `reserve_bytes` and `check`, Monitor for the loop of `monitor`.
-- * Relay, for tools/ethernet_relay.py: the parent has `recv_exact` (`receive_more` is its loop) and
--   the parts of a round of `receive_port`; Framing and Frames are about the bytes read, Switching
--   about the destinations; Threads has the step relation, in which the threads of all ports share
--   `mac_table`, and Delivery its invariant. A socket is the parameter Stream: `recv n` returns at
--   most n of the bytes to come, in order, and none only at their end. A Packet keeps the port
--   that its frame came from, which the code does not send.
-- * Config, for ubsim_lab/config_runtime.py: `resolve_gem5` makes the settings of a gem5 run from
--   the plan. Update is about `values.update` and the machine settings, Links and PerNode about the
--   settings of each node's link, Resolved about the whole, Launch about both functions in a row.
--   ROOT and PROFILE_DEFAULTS, which the module reads from a JSON file, are parameters; Spec has the
--   fields that the function reads of a specification that `compile_topology` has accepted.
-- * Checkpoint, for `_select_compatible_checkpoint` of ubsim_lab/cli.py: a directory's checkpoints
--   are records of their parsed manifests and of the files that exist, in the order of the glob;
--   the hash of the image file, if that exists, and the number of nodes are arguments. Agreed says
--   what the tests mean, Matching that the chosen checkpoint has passed them.
-- * Experiments, for ubsim_lab/experiments.py: Recipe has `validate_recipe`, and Runnable what it
--   accepts; Command the line of a test; Schedule the four loops of `run`, one function each, that
--   pass on the rows and the count on disk, with `execute` for the two commands of a trial (their
--   serial lines, logs and `parse_output`). Schedule/Cells has the loops as one pass over a list,
--   Numbered and Ports what the rows are. Preflight has `checkpoint_availability` and `preflight`,
--   whose checks are kept with their verdicts and without their texts; the host that they ask is the
--   record Host of Reports. Preflight/Checks, Sized and Cleared say what a
--   passed list of checks has found.
-- * Platform has what the launchers and the preflight ask of their machine, and the files that both
--   look for.
-- * Launcher, for ubsim_lab/config_launcher.py: Options and Command are about the command of gem5
--   (`_gem5_key`, `gem5_command`; Options/Table is the list of its options with their settings), Settings about `_check_memory`, `_require_files`, `_wait_socket`
--   and the reading of the manifest, Process about `_spawn` and the handler that stops what was
--   started. A launch passes on a World: the launches and stops so far, and the list `started`. The
--   record Host says how each launch, wait and check ends. Prepare has what `start_gem5` does before
--   its `try`, Devices the arguments of its devices, fabric and nodes, and Gem5 its loops;
--   QemuParts, QemuSettings, QemuDevices and Qemu are the same for `start_qemu`. Process/Kept says
--   how the parts of a launch add up, Process/Guarded how it ends, and Started what both functions leave
--   running.
-- * WriteTrial (tools/check_qemu_write_trial.py): Command is `command_config`, of the words that
--   `shlex.split` gives, Records the loop of `audit` over the records up to the check of the
--   label, and Counters the checks of the counters at its end, of the numbers that `last_fields`
--   reads; Flags, Supported, OneKind and Balanced say what they accept.
-- * RmaRegression (tools/run_modular_rma_regression.py) has the cases of the suites and the command
--   of a case, and RmaRegression/Fences is `validate_fences`, of the lines that its regular
--   expression reads.
-- * Web (ubsim_lab/web.py): Frames is `_ws_frame` and `_ws_parse`, Terminal the loop of
--   `_terminal_socket` over what its `recv` calls return, and Workbench the job of `start_task` and
--   the connected terminals, as steps of the handlers under their lock. Frames/Client has the
--   frames that a browser sends, as RFC 6455 lays them out; Frames/Cuts, Parsed, Waits and Masked are about the
--   parser, Terminal/Parts, Bounded and Delivered about the loop.
--
-- Conventions. A function that raises returns a result (Prelude/Result.antt) whose error says which
-- exception it is: in Topology, `topology_error` with the message of a `TopologyError`, and
-- `bad_fields`, `bad_integer` and `bad_choice` for the messages that list a set of names or a bound;
-- `key_error` for a `KeyError`, `type_error` for the `TypeError` of an unhashable set member or dict
-- key. A Python dict is an association list (Prelude/Dict.antt), a set a list that is tested with
-- `contains`. JSON numbers are the integers of Prelude/Int.antt; a JSON float keeps its literal,
-- since the code only rejects it. All loops run over lists or up to a count, except that of
-- `recv_exact`, which has as many rounds as it wants bytes: each round but the last brings one at
-- least. The digits of a number are printed with more rounds than it has digits.
--
-- Not modelled: `run` of topology.py, which reads the file and starts a launcher; the texts that the
-- guard prints; `\d` and `int` are read for ASCII digits only; the environment variables of
-- `qemu_ports` are the integers that `int` gives. The monitor is fed with what each of its rounds
-- meets, since that comes from the host. The simulators (C++), the scripts and the patches are
-- not part of the development. The launcher's files and directories are left out: those that a start
-- removes and makes, the logs, the written manifest and a node's identity.txt. Of the trial audit,
-- the manifest's checks, the bandwidth rows and diagnostics that are read out of the logs in
-- floating point, `size_compliance` and the printed result are left out; of
-- the web interface, the HTTP handlers, the files of the tasks and the edits of a topology.
pub mod Prelude
pub mod Json
pub mod Topology
pub mod QemuPorts
pub mod MemoryGuard
pub mod Relay
pub mod Config
pub mod Checkpoint
pub mod Platform
pub mod Launcher
pub mod WriteTrial
pub mod Web
pub mod RmaRegression
pub mod Experiments
mod Tests
