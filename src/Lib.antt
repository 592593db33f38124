-- ===== src/Lib.antt =====
-- MDM SaaS: a server that manages Apple and Windows devices for many tenants. Python handlers
-- read and write the tables of one database; devices speak to two Apple endpoints, an agent on
-- the device polls for script jobs, and workers end admin grants and send pushes.
--
-- How it is modelled. A table is the list of its rows (Models, after app/db/models.py), and the
-- state of a session is the record Db of all tables (Database). A handler is an action, Db →
-- Result A × Db: what it raises is a value, and get_db commits or rolls back as app/db/base.py
-- does. Times are microseconds, a number that each handler takes as `now`; identifiers and
-- secrets are drawn from a sequence in the state. Loops over rows are structural recursion. The
-- loop for a slug is on fuel. The two loops on a text (last_part and drop_slashes of
-- Windows/Session) have as many rounds as the text has bytes, and each round takes a byte at
-- least.
--
-- Parts and files.
--   Common: lists as tables (Tables), tests (Tests), the least row by a key (Orders).
--   Models, Database: the tables; sessions, errors, transactions, what an action keeps.
--   Apple/Plist, Apple/Commands: app/mdm/apple/plist.py and commands.py.
--   Apple/Checkin: app/mdm/apple/checkin.py, with what an enrolment adds (Enrollment) and what a
--     device that leaves is spared (Departure).
--   Apple/Connect: app/mdm/apple/connect.py: the queue of commands (Queue), the device's own
--     status (Status), what it reports (Reports), the endpoint (Handler); proofs in Queue/Order,
--     Frame and Results.
--   Compliance: app/services/compliance.py: the built-in policies (Templates, Seed), the engine
--     (Evaluation), the routes of app/api/routes/compliance.py (Policies), proofs in Verdicts,
--     Device, Standards, Results and Seeded.
--   AdminAccess: app/api/routes/admin_access.py (Requests) and app/services/auto_revoke.py
--     (AutoRevoke); proofs in Grants, Lifecycle, Elevation and Expiry.
--   Agent: app/api/routes/agent.py (Jobs), proofs in Delivery.
--   Auth: app/core/security.py (Tokens), app/core/deps.py (Session), app/api/routes/auth.py
--     (Login, Reset); proofs in Revocation, SingleUse and SecondFactor.
--   CommandQueue: app/services/command_queue.py (Consumer), proofs in Redelivery.
--   Apple/Profiles: app/mdm/apple/profiles.py, as values of property lists (Values, Builder,
--     Restrictions, Entra).
--   Profiles: app/api/routes/profiles.py: versions (Versions) and pushes (Push); proofs in
--     History and Diffs.
--   Devices: app/api/routes/devices.py (Handlers) and patch.py (Patches), proofs in Bulk and
--     Deletion.
--   Enrollment: app/api/routes/enrollment.py (Tokens, Import), proofs in Lockout, SingleUse and
--     Serials.
--   Tenants: app/api/routes/signup.py (Signup), tenant.py (Settings) and
--     app/services/trial_reminder.py (Reminder); Slugs is about the loop for a slug, which has one
--     round more than there are tenants.
--   Portal: app/api/routes/portal.py: its catalogue (Catalog), who asks (Session, with
--     app/core/deps.py), requests (Software) and their review (Reviews), proofs in Approvals,
--     Reviewed and Once.
--   Packages: app/api/routes/packages.py.
--   Billing: app/api/routes/billing.py: plans (Plans), payment events (Events), checkout, portal
--     and webhook (Routes); the abstract machine (Accounts), and the proofs that an event
--     (Refinement) and a sequence of deliveries (Webhook) implement it.
--   Windows: app/mdm/windows: commands.py (Commands), trees of XML elements (Xml), syncml.py
--     (SyncMl, with a proof in SyncMl/RoundTrip), omadm.py (Session), a proof in Statuses.
--   Groups, Users, Audit: app/api/routes/groups.py and users.py, app/services/audit.py;
--     Groups/Membership holds a proof.
--   Tests: the theorems at concrete inputs.
--
-- How the parts meet. The connect endpoint calls the compliance engine on each acknowledged
-- result. Approving or ending a grant queues a script job, which the agent fetches, and a
-- UserList command, which the connect endpoint delivers. A CheckOut clears the push credentials
-- that the consumer of the command queue looks for. A payment event sets the device limit that
-- the enrollment routes test. Device, group and profile routes put commands on the queue that
-- the endpoints of Apple and Windows devices deliver.
--
-- Not modelled. plistlib, ElementTree, jose, passlib, pyotp, Stripe and APNs are third party:
-- decoded trees, a record of operations, the provider's answers and the outcome of a push are
-- parameters, and so are the methods strip, upper and lower of Python's texts. The profile that
-- a check-in queues, what the database does with the DELETE of a device that other tables refer
-- to, and Python's equality on the values of a profile, whose printed forms are stored, are
-- parameters too. Logging, HTTP, signals and threads, pages of HTML, files, e-mail, single
-- sign-on, lists of rows and the enrollment of Windows devices are left out, and so is the order
-- in which two sessions interleave: a session runs alone.
pub mod Common
pub mod Models
pub mod Database
pub mod Apple
pub mod Compliance
pub mod Audit
pub mod AdminAccess
pub mod Agent
pub mod Auth
pub mod Windows
pub mod CommandQueue
pub mod Groups
pub mod Users
pub mod Billing
pub mod Devices
pub mod Enrollment
pub mod Profiles
pub mod Tenants
pub mod Packages
pub mod Portal
pub mod Tests
