-- ===== src/Lib.antt =====
-- A model of zcash-devtool, a command-line wallet and inspection tool for Zcash, with the theorems
-- that make its own logic correct. The tool synchronises a wallet with a light wallet server,
-- inspects blocks, transactions and keys, and works on partially created transactions (PCZTs). The
-- Zcash crates do the cryptography, the scanning and the databases; what they do is a parameter of
-- the model wherever the tool uses it.
--
-- The parts, the files that model them, and the sources.
-- * Sync (src/commands/wallet/sync.rs): one pass of the synchronisation, `running`, with what it
--   calls. A pass refreshes the chain tip and the transparent outputs, verifies ranges first, then
--   works through the suggested ranges in batches: download, poll for a shutdown, chain state, scan,
--   deletion of the files. Sync/World has what the pass talks to (server, databases, files, interface,
--   shutdown signal), each as a function of the history of effects so far; Sync/Steps has the calls,
--   Sync/Running the loops, Sync/Range the interface of the crate's scan ranges, Sync/Batch the
--   batches, Sync/Order what concerns the order of effects, Sync/Cache the block cache, which is a
--   parameter with what its crate documents, Sync/Rewind the rewind. Steps that fail keep the
--   effects that they have had (Base/Effects). The verification loop runs on fuel, since the wallet may
--   suggest a range to verify for ever; when the fuel runs out the answer is `none`, which no run of
--   the program gives. The batches of a range run on fuel of one more than its number of blocks, which
--   is enough for a range that ends at least one batch below 2 ^ 32.
-- * Enhance (src/commands/wallet/enhance.rs): the enhancement of transactions, on the same effects.
--   Enhance has the queries, the handling of a request and the loop, Enhance/Handled and
--   Enhance/Complete what is done in the end. The loop runs on fuel, as many rounds as there are
--   requests, and one more.
-- * Defrag (src/commands/wallet/sync/defrag.rs): the state of the view of the synchronisation, the
--   actions that `running` sends it, the map of priorities, and the cells that stand for blocks.
-- * Block (src/commands/inspect/block.rs): Block/Target has the compact target of a header and the
--   proof of work check, Block/Merkle the Merkle root of a block and its mutation flag, Block/AuthRoot
--   the root of its authorizing data, Block/Report the checks of a block and the lines that are
--   printed of them. A vector of hashes is a list whose indexes are checked, and the loops run on
--   fuel, which is enough for every block with a transaction (and, for the authorizing data, of at
--   most 2 ^ 62 of them).
-- * Inspect (src/commands/inspect/): Inspect/Context has the context that the user gives, as its JSON
--   values are read and written (context.rs); Inspect/Transaction the report on a transaction
--   (transaction.rs), with /Lines for what is printed, /Inputs for the transparent part, /Shielded for
--   Sprout and Sapling, /Orchard for Orchard and /Running for the whole. A panic ends the report, and
--   the lines before it are left out.
-- * Remote (src/remote.rs): the choice of a server and of the connection to it.
-- * DerivePath (src/commands/wallet/derive_path.rs): the derive-path command.
-- * Redact (src/commands/pczt/redact.rs): the pczt redact command. Redact/Keys has a function for each
--   function of the source, Redact/Proprietary what the redactions do to the items of a transaction.
-- * Config (src/config.rs, src/data.rs): the keys file of a wallet and the names of networks.
-- * Explore (src/commands/wallet/tree/explore.rs): the explorer of the commitment trees.
--   Explore/Arguments has the arguments of the command, Explore/Region the nodes around a node,
--   Explore/Drawing what is drawn of them, Explore/Moving the state, the moves and the reloading of
--   the region. The trees and their addresses are the records Addresses and Trees of Explore, with
--   what the crates document of them. The climb to an ancestor that exists runs on fuel; 33 is enough
--   for the addresses of a tree of 32 levels, and above it no fuel is.
-- * WithDerivation (src/commands/pczt/update_with_derivation.rs): the command that adds a derivation to
--   the inputs of a PCZT. WithDerivation has the arguments, /Crates what it takes from the crates,
--   /Inputs the search for the inputs and their update, /Running the command, /Given whose key an input
--   must use.
-- * ManualPczt (src/helpers/pczt/create_manual.rs, src/commands/pczt/pay_manual.rs and
--   src/commands/pczt/create_manual.rs): PCZTs that spend given coins. ManualPczt has the coins and the
--   pool of a recipient, /Paying the outputs of a payment and their places, /Creating the amounts.
-- * QrPacket (src/commands/pczt/qr.rs): the packet of a PCZT in QR codes. The loop over the entries of a
--   map runs on fuel; one round is enough for the packets that the tool writes.
-- * ListTx (src/commands/wallet/list_tx.rs): the listing of transactions. ListTx has the modes and the
--   reading of rows, /Printing the text and the records of comma-separated values, /Postgres the rows
--   of a shared database.
-- * Ui (src/ui.rs): the text of an amount.
-- Base has what these share: texts as lists of code points, the standard library's numerals and
-- maps, whole numbers, results, effects with a history. Protocol has the enumerations of the Zcash
-- crates that the sources name.
--
-- Numbers are natural numbers, and the arithmetic of 32 bits keeps its wrap-around where the source's
-- values can reach it. Messages of the log, time-outs and the drawing of the interface, but for the
-- explorer's shapes, are left out.
-- Not modelled are the commands that are a sequence of calls of the Zcash crates (sending, proposing,
-- proving, signing, creating and the other listings), the opening of databases, and the dispatch of the command
-- line.
pub mod Base
pub mod Protocol
pub mod Block
pub mod Sync
pub mod Defrag
pub mod Config
pub mod DerivePath
pub mod Remote
pub mod QrPacket
pub mod Redact
pub mod Enhance
pub mod Explore
pub mod ManualPczt
pub mod WithDerivation
pub mod Ui
pub mod Inspect
pub mod ListTx
