-- ===== src/Lib.antt =====
-- The client of Bhidne Ho, a site for Call Break, Marriage and Flush: the logic under
-- client/src/multiplayer, which keeps a browser or a phone in step with the game server. The
-- server decides every rule of a game; the client must not lose or repeat a player's action, must
-- notice a dead connection, must not accept what is not meant for it, and must not propose what a
-- player may not do.
--
-- The parts and how they interact. A session (Session) signs in, enters a room and keeps what is
-- stored for the next start. While it is in a room, one room connection (Connection) holds the
-- socket; what that hears goes to the session, the pokes, the reactions and the social channel
-- (Social). A mounted table has one command client (Commands), which polls the game's snapshot and
-- posts the player's action over HTTP; the answers are decoded by Api. The views are computed from
-- the snapshots: Table, Hand, Flush and Marriage.
--
-- Files, with the source that each models (paths from client/src/multiplayer):
--   Prelude, Json     shared names and lemmas; JSON values as the checks of incoming messages see them
--   Connection        RoomConnection.ts: the class, one function for each method and callback;
--                     Connection/Safety its invariant, Connection/Run its event loop, in which `start` is
--                     called only on a stopped connection, as useRoomSession.ts does
--   Commands          PendingGameAction.ts; Commands/Client the class of GameCommandClient.ts;
--                     Commands/Trace all its interleavings; Settle, Order, Kept and Stale the proofs
--   Api               apiResponse.ts, the decoding of GameCommandClient.ts, the address and the method
--                     of api.ts; Api/Leaving leaveRoomMembership.ts
--   Session           useRoomSession.ts and the types of session.ts; Session/Storage its store, with
--                     client/src/auth/storage.ts and installStorage.native.ts;
--                     Session/SignIn client/src/auth/social.ts
--   Social            TableSocialChannel.ts; Social/Requests its runs, Social/Messages the chat's merge,
--                     Social/Pokes pokes.ts, Social/Reactions tableReactions.ts, Social/Phrases
--                     usePlayerPhrases.ts
--   Table             tableSeats.ts; Table/Entry tableNavigation.ts and tableHeaderSharing.ts,
--                     Table/Bids bidProgress.ts, Table/Guidance roundFlow.ts
--   Hand              handDrawer.ts and useCallBreakHand.ts; Hand/Mobile useMobileCards.ts,
--                     Hand/Reveal useMarriageReveal.ts
--   Flush             flushDecision.ts and the bets of flushTable.ts; Flush/Cues the effect of
--                     client/src/components/FlushTurnCue.tsx
--   Marriage          marriage.ts; Marriage/Suggestions its suggestions, Marriage/Completion
--                     completionKind of marriageFinishProgress.ts, Marriage/Masks its bit masks and
--                     Map of results, Marriage/Cover the recursion of normalFinishProgress,
--                     Marriage/Finish the progress on both routes and the gaps, Marriage/Wins
--                     marriageWinChoices; Marriage/Maal and Marriage/Maal/Choices maalProgress.ts,
--                     Marriage/Workspace marriageWorkspace.ts, Marriage/Announcements
--                     marriageAnnouncements.ts
--   Invitations       invitations.ts: the codes of rooms and tables, and what is typed in to join
--   I18n              client/src/i18n: catalogs.ts, and the texts of locales/en and locales/ne under
--                     I18n/En and I18n/Ne; I18n/Labels copy.ts
--
-- How the state corresponds. A class or a hook is a record of its fields, and each method or callback
-- a function from the old state to the new one. Code that waits is cut where it waits: the part before
-- returns what it asks for, the part after takes the answer as an argument, and the events between
-- them are the steps of a relation or of a function on lists of events. What the platform decides
-- (whether a socket opens or a send throws, random texts, the clock, the catalog's texts) is an
-- argument. Requests and sockets have the number of their creation as their identity. Times are
-- natural numbers of milliseconds; the seats' geometry is in hundredths of a pixel, so that the fractions
-- of the source are whole. A bit mask is the list of its bits, and the comparison of two texts by
-- localeCompare is an argument.
--
-- Fuel. The recursions `cover` and `covers` over masks have the number of cards as their fuel. Each call
-- goes to a mask with fewer bits, so that many calls deep the mask is empty; the theorems on both hold
-- for that fuel. The searches of Marriage/Maal go as deep as the number of patterns that they choose.
-- Every other loop goes over a list, and the retries of a request end by the number of timers fired.
--
-- Not modelled: rendering (components, screens, themes), the start-up of i18next, the links that
-- invitations are sent as, the pages of other sign-in providers, timeouts of single HTTP requests and
-- geometry that needs trigonometry, since these are calls of the platform, floating point or
-- presentation; and the texts of notifications, the list of memberships, the recent rooms and the
-- arrangement of a Marriage hand, which are views that nothing else depends on. The game server is a
-- different program.
pub mod Prelude
pub mod Json
pub mod Connection
pub mod Commands
pub mod Api
pub mod Session
pub mod Social
pub mod Table
pub mod Hand
pub mod Flush
pub mod Marriage
pub mod Invitations
pub mod I18n
