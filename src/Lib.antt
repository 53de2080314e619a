-- ===== src/Lib.antt =====
-- Elrond to Ethereum bridge: the relayer.
--
-- A relayer watches two contracts, one on Ethereum and one on Elrond, and brings batches of token
-- transfers from one chain to the other together with the other relayers. Two state machines run
-- side by side. In the Ethereum to Elrond half-bridge the leader proposes a batch as an action of
-- the contract on Elrond, the relayers sign it there, and a leader performs it. In the Elrond to
-- Ethereum half-bridge the relayers send one another signatures of the hash of a batch, a leader
-- executes the transfer on Ethereum with a quorum of them, and the statuses of the transfers go back
-- to Elrond as an action. The steps of both machines call one component, the bridge executor, which
-- works with a client for each chain, with the topology that says whose turn it is, and with the
-- signatures that came in over the peer-to-peer network.
--
-- The parts, with the files of this library and of the repository:
--   * Common: numbers, lists, byte strings and UTF-8, results and two small monads. Errors are
--     the sentinels of the errors.go files; text that is added to them is left out.
--   * Batch: clients/batch.go. `DepositTransfer`, `TransferBatch`, their `clone` and
--     `resolve_new_deposits` (ResolveNewDeposits).
--   * Bridge: bridges/ethElrond/bridgeExecutor.go. Bridge/Clients has the interfaces of
--     bridges/ethElrond/interface.go as records of functions of a world; Bridge/Executor has one
--     function per method, named as the method is. The state is the executor's fields, the world,
--     and a log of the calls, newest first; `none` is a panic. Bridge/Protocol says which calls
--     are allowed after which others, Bridge/Kept what the clients keep between the calls; below
--     Bridge/Executor are the constructor (Create) and proofs on its methods (Kept, Asked).
--   * EthToElrond and ElrondToEth: bridges/ethElrond/steps, one function per step's Execute, and
--     `steps_slice` for stepsFactory.go.
--   * StateMachine: stateMachine/stateMachine.go and core/types.go, for any identifiers of steps.
--   * Signatures: bridges/ethElrond/signaturesHolder.go and core/messages.go.
--   * P2p: p2p/broadcaster.go, p2p/relayerMessageHandler.go and p2p/noncesOfPublicKeys.go.
--     `process_received_message` is ProcessReceivedMessage, whose clients are signature holders.
--     P2p/Create has NewBroadcaster and RegisterOnTopics, P2p/Peers has p2p/peerDenialEvaluator.go
--     and p2p/statusHandlerAdapter.go. P2p/Messages/Delivered is about what a relayer receives of
--     what another has created.
--   * Ethereum: clients/ethereum/client.go. Ethereum/Transfer has ExecuteTransfer with its checks,
--     Ethereum/Batches has GetBatch, Ethereum/Availability has CheckClientAvailability, and
--     Ethereum/Create has NewEthereumClient. Ethereum/Wrappers: clients/ethereum/wrappers and
--     clients/ethereum/erc20ContractsHolder.go, which stand between the client and the contracts.
--   * Elrond: clients/elrond/client.go and clients/elrond/transactionHandler.go. Elrond/Requests has
--     the transactions of the relayer, Elrond/Pending has GetPending, Elrond/Availability has
--     CheckClientAvailability and NewClient. Elrond/DataGetter: clients/elrond/dataGetter.go and
--     clients/elrond/mappers, with the parsing of what the contract returns.
--   * Batch/Validator: clients/batchValidator, the service that both halves ask about a batch.
--   * Status: status, the metrics that the clients and machines report and the storer they outlive
--     a restart in.
--   * System: the executors of both halves with these clients, the data getter, the topology and
--     the validator below them, as factory/ethElrondBridgeComponents.go puts them together.
--     System/Create has NewEthElrondBridgeComponents, System/Lifecycle has Start and Close.
--     System/Relayer: a relayer that polls its two machines in any order. One poll is one step of a
--     machine; a panic of a client is noted in the field `panicked`. System/Started: what is proved
--     of a relayer from its construction on.
--
-- The signature holder is shared by the broadcaster and the Ethereum client; the state of each
-- holds it as a value, and a theorem on one speaks of the holder at that moment. Methods that take
-- a lock are one step. Go maps are lists of pairs in the order of insertion. A `uint64` is a natural
-- number whose sums wrap at 2 ^ 64; a `big.Int` is an integer.
--
-- Loops are structural recursion over the list or the number they run over. The two loops of the
-- executor that wait for the chain run over their constant number of splits, and the machines over
-- the number of steps to take; no other fuel is used. A run of a machine may go on for ever, so its
-- theorems hold for every number of steps.
--
-- What is a parameter: the contracts, both nodes and their SDKs, go-ethereum's functions, the
-- marshalizer, the signers, the hash, the antiflood handler, the messenger, HTTP and JSON, and the
-- texts of numbers, addresses and levels of the log. What a theorem needs of them is a hypothesis
-- by name: `IsLawful`, `IsFaithful`, `IsKept`, and `IsConfigured` for the settings of a relayer.
--
-- What is not modelled: the API, the command line and the configuration, which are input and output;
-- of the factory, the keys, files, loggers and metrics; the generated bindings of the contracts; the
-- nil checks of the constructors; timers and goroutines, whose orders a relayer's polls range over.
pub mod Batch
pub mod Bridge
pub mod Common
pub mod Elrond
pub mod ElrondToEth
pub mod EthToElrond
pub mod Ethereum
pub mod GasStation
pub mod P2p
pub mod Relayers
pub mod Signatures
pub mod StateMachine
pub mod Status
pub mod System
