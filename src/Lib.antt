-- ===== src/Lib.antt =====
-- The Zowe cross-memory server (ZIS), its parameters, its plug-ins and services, its auxiliary address
-- spaces, and the parser of TSS command output.
--
-- The parts of the program and the files that model them:
-- Prelude: byte strings, native numbers and their tests, lists by native length.
-- Parm/Set: the parameter set of c/zis/parm.c (`findEntry`, `zisPutParmValue`, `zisGetParmValue`,
--   `zisMakeParmSet`, `zisIterateParms`, `zisLoadParmsToCMServer`). Parm/Set/Contents is the ordered
--   dictionary that it stands for, Parm/Set/Storage the storage that filling it asks for.
-- Parm/Record: `getTrimmedSlice`, `isParmCommentedOut`, `handleParmRecord` and `iterateMember`.
--   Parm/Record/Lines says what the records of a member mean.
-- Parm/MainParms: `zisReadMainParms`. Parm/Parmlib: `zisReadParmlib` with its read loop, and a trace
--   of what it takes and gives back.
-- Service, Plugin: h/zis/service.h and c/zis/service.c, h/zis/plugin.h and c/zis/plugin.c.
-- Server/State: the common storage with the anchors, the service table and the plug-ins of one
--   start. The addresses of anchors are numbers; storage is given out upwards, and `next` is the next
--   address. `ServiceMap` is what the code relies on of the cross-memory map.
-- Server/Route: `zisRouteService`. Server/Anchors: the searches for anchors, and `cleanPlugins`.
--   Server/Install: `installServices`, one `Round` for each service. Server/Deploy: from
--   `visitPluginParm` to `installPlugin`, with the LPA relocation, and `initServer`, `cleanupServer`.
--   Server/Config: what is read from the parameters, the global resources, `handleModifyCommands`.
--   Server/Load: `loadConfig`, which reads the main parameters and then the member that they name.
-- Tss: c/zis/services/tssparsing.c.
-- Aux: the structures that zis-aux shares. Aux/Tokens: `auxutilTokenizeString` of
--   zis-aux/src/aux-utils.c. Aux/Manager: zis-aux/src/aux-manager.c, with Guests (start and stop),
--   Requests (commands, payloads, responses and the calls of a guest), Areas and Reach (the histories
--   of a manager, as a step relation).
-- Aux/Host: zis-aux/src/aux-host.c, with Gate (the PC routine, which runs in the caller), Commands,
--   Worker (the task that does the work) and Boot (`loadConfig`, `loadUserModule` and `run`).
-- Core/Auth: c/zis/services/auth.c, from `handleVerifyUser` to `zisAuthServiceFunction`. Core/Snarfer:
--   `zisSnarferServiceFunction` of c/zis/services/snarfer.c, which copies from another address space.
-- Core/Nwm: `zisNWMServiceFunction` of c/zis/services/nwm.c.
--
-- How they interact: the parameters are read into a set, the server takes its flags and names from it
-- and deploys the modules that it names; a module gives a plug-in with services; each service gets an
-- anchor in common storage, which a later start of the server finds again, and an entry of the service
-- table; the router finds the anchor through the table. The stop of the server makes the anchors
-- inactive and leaves them. A plug-in of the server may start guests in auxiliary address spaces: the
-- manager passes the address of a communication area to the host in a parameter string, and sends
-- requests through the host's PC routine, which pauses the caller until a task of the host is done.
--
-- A pointer to an anchor is its address, a NULL pointer or string is `none`, and the flags of a
-- word are Booleans. A result type `Option` around a status says that the code may read through
-- NULL or outside an array: that is its outer `none`. Of the main parameters' loop each round takes
-- at least one byte, as does each of `auxutilTokenizeString`, so fuel of one more than the length
-- is enough, which is proved with their results. All other loops recurse on their list or on a
-- count that the source bounds.
--
-- Parameters of the model, with no definition of their own, are what the repository calls and does
-- not hold: the short-lived heap, IEFPRMLB, `safeMalloc31`, common storage, LPA, the loading of
-- modules, recovery (as the outcome of a call), SAF, SRBs, the network management interface, the
-- cross-memory map with its laws, `cmsTestAuth`, `sscanf`, the character classes, `indexOfString`,
-- `lastIndexOfString` and `padWithSpaces`; for zis-aux the hash table, the cell pool, shared
-- storage, the queue of PETs, pause and release, and the address space services.
--
-- Not modelled: messages and dumps, the copy of the caller's block, the freeing of the heap and of
-- anchors that are never freed in use, the build with ZIS_DEV_MODE, what a callback of a plug-in or
-- a service may itself change in the common storage, a NULL descriptor of a module in LPA, the
-- registration with the core server, the security management of c/zis/services, the client, the
-- dynamic linkage plug-in, of zis-aux the allocations of a context but for its PETs, its
-- registration with the task manager and the reason codes that the system gives, and the HTTP
-- services of c, which mostly call libraries of other repositories.
mod Prelude
pub mod Parm
pub mod Service
pub mod Plugin
pub mod Server
pub mod Tss
pub mod Aux
pub mod Core
mod Tests
