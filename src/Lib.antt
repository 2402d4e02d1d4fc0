-- ===== src/Lib.antt =====
-- NFX-Edge: the web console that manages certificates, Namecheap DNS hosts, and the user's profile.
--
-- The console (console/src) is a React program. Its logic is in stores, hooks and helpers: the user's
-- actions call the HTTP client, whose answers change the state of a hook, emit an event that makes
-- cached queries stale, and open one of the dialogs of the modal store. This library has a module
-- for each of these parts, with one definition per action or helper. State is passed from one
-- definition to the next; what happens while a call waits is a sequence of steps.
--
-- The parts:
--   Common: text as its UTF-16 code units with the operations of JavaScript's String, lists with
--     the operations of Array, Boolean tests, and their laws.
--   Modal: the store of dialogs, console/src/stores/modal.ts (Types and Store: showModal and
--     hideModal; Helpers: showSuccess, showConfirm and so on), and the handlers of the message and
--     confirmation dialogs, console/src/providers/ModalProvider/components (Dialogs). Slots is the
--     abstract view, the set of open dialogs, and Refinement relates the two.
--   Client: console/src/apis/clients.ts, the interceptors of protectedClient (prepare, on_error,
--     perform), and console/src/utils/logoutSession.ts (logout_session).
--   Query: the keys of console/src/constants, the events of console/src/events, and the listeners of
--     console/src/providers/QueryProvider/hooks.
--   Certs: the mutations of console/src/hooks/tls.ts and console/src/hooks/file.ts (mutate, which uses
--     Query and Modal), console/src/utils/commandMessage.ts, and the hooks of
--     console/src/features/certificate/hooks: the forms (Submit) and the commands on one
--     certificate (Operate).
--   Dns.Hosts: console/src/features/dns/hostFqdn.ts, and the helpers of the editor of alternative
--     names, console/src/features/certificate/controllers/SANsController.
--   Dns.Ttl: console/src/features/dns/ttl.ts and console/src/features/dns/TtlDropdown.tsx.
--   Dns.Bulk: console/src/features/dns/bulkFilter.ts, and the state, the request and the actions of
--     console/src/pages/Namecheap/Detail/Domains/Bulk/index.tsx.
--   Dns.Lookup and Dns.Commands: console/src/hooks/dns.ts, the search for the credential that holds a
--     domain (lookup), and the mutations (settle, which uses Query and Modal).
--   Dns.Detail: console/src/pages/Namecheap/Detail/Domains/Detail/index.tsx, the page of a domain's
--     records: which are picked (Anchor), the certificate to apply for (Apply, which uses
--     Dns.Hosts), the form that the page leads to (Opened, which uses Certs.Prefill), and the record
--     that is edited (Editing).
--   Api: console/src/apis/ip.ts and the four files of calls, console/src/apis/*.api.ts; Routes is a
--     table of the server's routes, by which Dispatch reads the paths.
--   Certs.Prefill: the path to the page for a new certificate and the form that it opens with,
--     buildCertAddPath.ts, folderNameFromDomain.ts and useInitApplyCertificateForm.ts of
--     console/src/features/certificate.
--   Display: console/src/hooks/certificateDisplay.ts and the counts of
--     console/src/pages/Certs/Overview/index.tsx.
--   Files: console/src/pages/FileFolder/index.tsx, the way through the folders (Back) and the outcome of
--     commands (Messages, which uses Certs).
--   Grid: console/src/components/VirtuosoList/index.tsx, the rows and the number of columns.
--   Sidebar: console/src/layouts/Sidebar/index.tsx and console/src/navigations/routes.ts, the
--     entries that are lit.
--   Identities: console/src/pages/User/Profile/Identities/index.tsx, the rows of addresses (Contacts)
--     and the profiles, with commands that wait for answers (Kept).
--   Analysis: console/src/pages/Analysis/Tls/index.tsx, and what it shows at once (Shown).
--   Account: small rules, console/src/hooks/resendTimer.ts (Timer), console/src/hooks/signupProgress.ts,
--     console/src/utils/userInitials.ts (Initials), images.ts and edgeApiError.ts of the same folder,
--     and console/src/features/dns/flag.ts.
--   Background: the gallery of profile backgrounds, drafts.ts (Drafts) and
--     useUserProfileBackgroundUpload.ts (Upload, Actions) of
--     console/src/pages/User/Profile/Edit/backgrounds.
--   Build: the environment files, the base path and the search for a module in
--     console/vite.nfx-ui.ts; a file is known by its lines.
-- The children of a part that hold proofs are named for what they prove; its Tests hold concrete runs.
--
-- Conventions. toLowerCase maps the ASCII letters and leaves other code units alone. A closure that a
-- dialog holds is a number, or the data that it captured. The server is a function from the calls
-- that it has got to its answer, or its answers come with the actions; the tokens' refresh, the tests
-- on errors, the translations, localeCompare and the schema for backgrounds are parameters, since
-- they are code of libraries. Hypotheses on them are arguments of the theorems.
-- Client.perform counts attempts by fuel: two are enough for every request, as is proved. The loop of
-- Grid.chunk_rows has as much fuel as there are items, which is enough since the rows hold them all.
-- All other recursion is structural.
--
-- Not modelled: the backend in Go (modules, pkgs, protos), JSX, styles and animations, the language
-- bundles, the zod schemas, the creation of the axios instances and the logging, and the configuration
-- of builds and of deployment.
pub mod Common
pub mod Modal
pub mod Dns
pub mod Background
pub mod Client
pub mod Query
pub mod Certs
pub mod Build
pub mod Grid
pub mod Files
pub mod Sidebar
pub mod Display
pub mod Api
pub mod Identities
pub mod Analysis
pub mod Account
