-- ===== src/Lib.antt =====
-- A model of uhub, a hub for the ADC chat protocol, and what holds of it.
--
-- A hub keeps a pool of session identifiers (src/adc/sid.c) and gives one to every client that
-- connects. It reads lines from the client's socket, parses each into a message
-- (src/adc/message.c), checks that the sender named in the message is the client itself, and
-- routes the message to its recipients (src/core/route.c), whose send queues
-- (src/core/ioqueue.c) it fills. Messages carry escaped text in positional and in named
-- arguments, which the hub reads, replaces and removes. Users have a rank
-- (src/util/credentials.c) that decides what they may do, and limits on how often they may do it
-- (src/util/floodctl.c). The hub's own work is posted to a queue of events
-- (src/core/eventqueue.c), and addresses are admitted or banned by ranges
-- (src/network/ipcalc.c).
--
-- A client logs in with a feature message, an information message (src/core/inf.c) and, if its
-- nick belongs to an account, a password; src/core/hub.c takes its messages apart by their
-- command and the user manager (src/core/usermanager.c) keeps who is logged in.
--
-- Files:
-- - Prelude: tests on numbers, lists measured by native numbers, C strings as lists of bytes.
-- - Util/Chars, Util/Utf8: src/util/misc.c, character classes, base32 and UTF-8 validation;
--   Util/Utf8/Grammar holds the well-formed sequences of the Unicode standard.
-- - Util/Credentials: src/util/credentials.c.
-- - Adc/Sid: src/adc/sid.c; Adc/Sid/Codec on the textual form, Adc/Sid/Scan and Adc/Sid/Pool on
--   the pool.
-- - Adc/Escape: the escaping functions of src/adc/message.c.
-- - Adc/Message: the message record and its buffer; Adc/Message/Parse is adc_msg_parse and
--   adc_msg_parse_verify, Adc/Message/Build the constructors, Adc/Message/Line the termination,
--   Adc/Message/Arguments the arguments.
-- - Util/Flood: src/util/floodctl.c.
-- - Core/Transport: the connection as the system offers it, with the laws of send(2).
-- - Core/Queue: src/core/ioqueue.c; Core/Queue/Stream is its view as a stream of bytes,
--   Core/Queue/Send on one call that sends.
-- - Core/NetWrite: handle_net_write of src/core/netevent.c; Core/NetWrite/Drain on one call,
--   Core/NetWrite/Runs on a whole life of a queue.
-- - Core/User: src/core/user.c and the record of src/core/user.h; Core/User/States on its states
--   and its list of features.
-- - Core/Route: src/core/route.c; Core/Route/Delivery on one recipient, Core/Route/Recipients on
--   the loops over users and features, Core/Route/Addressed on whole messages.
-- - Core/NetRead: handle_net_read of src/core/netevent.c; Core/NetRead/Lines on the lines it
--   finds. The handler of a message, hub_handle_message, is a parameter.
-- - Network/Ip: src/network/ipcalc.c; Network/Ip/Quad on IPv4 texts, Network/Ip/Order on ranges.
-- - Core/EventQueue: src/core/eventqueue.c; Core/EventQueue/History on its rounds.
-- - Adc/Message/Position: the numbered arguments of src/adc/message.c, against the words of a
--   line in Position/Words, Position/Numbered and Position/Plain; Adc/Message/Arguments/Length
--   on how long it gets; Adc/Message/Arguments/Without on arguments that a message lacks.
-- - Util/RbTree: search and insertion of src/util/rbtree.c; Util/RbTree/Balance on the colours,
--   Util/RbTree/Sorted on the order of the keys, Util/RbTree/Strcmp on the order of names,
--   Util/RbTree/Insert on the place of a new key and Util/RbTree/Lookup on the tree as a map.
-- - Core/Profile: the limits and quit reasons of src/core/user.h; Core/User/Info: user_set_info
--   and user_update_info of src/core/user.c, Core/User/Kept on the loop over the arguments of an
--   update.
-- - Core/UserManager: src/core/usermanager.c; its maps and its list in Core/UserManager/Maps and
--   Core/UserManager/Registered, and Core/UserManager/Routed on routing, which leaves them
--   alone. The maps are the pairs that the red-black trees hold.
-- - Core/Hub: the records of src/core/hub.h and the disconnection of src/core/hub.c;
--   Core/Hub/Status on status messages and the failures of src/core/hubevent.c, Core/Hub/Login
--   on the events of users and the password, Core/Hub/Login/Verified on who gets in,
--   Core/Hub/Login/Sent and Core/Hub/Login/Ends on what a login sends, Core/Hub/Login/Listed on
--   the lists and Core/Hub/Login/Entered on both, Core/Hub/Support and Core/Hub/Support/Ends,
--   Core/Hub/Chat and Core/Hub/Command on those messages and the flood checks, Core/Hub/Message
--   on hub_handle_message, and Core/Hub/Message/Flood and Core/Hub/Message/Guard on what it
--   refuses.
-- - Core/Inf: src/core/inf.c. Core/Inf/Names takes arguments out of messages, Core/Inf/Lacking
--   and Core/Inf/Common say which are gone; Core/Inf/Identity and Core/Inf/Presence check who
--   logs in, Core/Inf/Limits the numbers of a user, Core/Inf/Login is a login and
--   Core/Inf/Update an update, with Core/Inf/Login/Private on what a login keeps and
--   Core/Inf/Update/Stripped on what an update may change.
-- - Core/Tests, Adc/Tests, Util/Tests, Network/Tests: runs on concrete inputs.
--
-- Conventions: a C string is the list of its bytes without the NUL; a null pointer is `none`; a
-- 32-bit or 64-bit unsigned number is a natural number with its wrap-around written out, where
-- the code can reach it. Allocation succeeds. A loop over a string is recursion on the string. A
-- user is a record in the table of session identifiers, and a handler returns the hub and the
-- user that it has changed. A loop that is not structural runs on fuel: the scan of sid_alloc
-- has two rounds of the table, the loops that remove, count, number or copy arguments have the
-- length of the buffer, which every step shortens or passes, and the write loop has one round
-- for every message in the queue. The scan would say that it is out of fuel with `diverged`, and
-- the write loop and the loops of hub_handle_support and user_update_info with `none`; a search
-- for arguments that has used up its fuel has nothing left to search.
--
-- Not modelled: system calls, TLS, DNS, logging, threads, plugins and the generated
-- configuration tables. Of the hub, the text of the handshake, the shutdown, the timeouts, the
-- commands and the file of accounts are not part of the model: the handshake, the access control
-- list, the password check, the commands and the plugins' answers are parameters; a plugin
-- answers as a function of what it is shown, and the messages that some plugins send themselves
-- are left out. The red-black trees of the user manager are taken by the pairs that they hold,
-- and removal from a tree is not modelled.
pub mod Adc
pub mod Core
pub mod Network
pub mod Prelude
pub mod Util
