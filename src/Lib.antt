-- ===== src/Lib.antt =====
-- The clients of a file storage service: a mobile app (native/) and a web app (web/), which both talk to
-- gRPC services through generated clients. This library models what the clients decide: how tokens are
-- kept and refreshed, how requests are authenticated, how files are uploaded, edited and moved.
--
-- Shared: Prelude (names of the libraries, Boolean tests, lists), Exec (an asynchronous function as a
-- state and a reply), Dict (JavaScript's `Map`), Rpc (the status codes), Text (`trim` and the like), Item
-- (an entry of a folder listing), QueryKey (the keys of the query
-- caches), Paging (a listing in pages).
--
-- Native, the mobile app:
--   * Native.Payload and Native.Tokens: native/src/auth/tokenManager.ts. A `Device` holds the access
--     token, its expiry, the keychain and the session; a `World` is what the keychain, the auth service
--     and the clock answer. `rotateRefreshToken` is rotate_refresh_token, and so on by name.
--   * Native.Flight: the same file's `refreshAccessToken` with its shared promise, where a rotation is
--     cut at its awaits and callers, rotations and changes of the device come in any order.
--   * Native.Session: native/src/auth/session.ts. Listeners are numbers, and what they are told is a log.
--   * Native.Interceptor: `authInterceptor` of native/src/lib/rpc.ts, over the token manager.
--   * Native.Account: use-login.ts, use-register.ts and use-logout.ts of native/src/modules/auth/api.
--   * Native.Forms: login.tsx and register.tsx of native/src/app/(auth), with the checks of
--     native/src/modules/auth/lib/auth-errors.ts.
--   * Native.Display: native/src/modules/files/lib/file-display.ts, sizes, ages and kinds of files.
--   * Native.Sheet: native/src/modules/upload/components/create-sheet.tsx. Timers are numbers, and that
--     one fires is an event.
--   * Native.Files: native/src/modules/files/views/files-view.tsx, the folder browser; Native.Home:
--     native/src/modules/home/views/home-view.tsx and the queries behind it of
--     native/src/modules/files/api/use-files.ts.
--   * Native.Root: native/src/app/_layout.tsx, the splash, the stacks and the cache over the session that
--     Native.Tokens decides. Native.Queries: the queries of use-files.ts themselves, their keys, when they
--     run, and how pages are loaded one after the other. Native.Env: native/src/lib/env.ts, the addresses.
--
-- Web, the web app:
--   * Web.Blocks, Web.Hex, Web.Workers, Web.Retry and Web.Save: web/src/modules/files/lib/edit-commit.ts,
--     the save of an edited file: it is split, hashed, and uploaded by a pool of workers that retry, and
--     one commit is sent. The pool is a state that tasks and workers step in any order; Web.Save takes a
--     phase by its outcome, `settle`, and Web.Workers.Settled joins the two. Web.Retry.Sleep is the wait
--     between two attempts, Web.Save.Progress the reports of the progress beside the pool.
--   * Web.Upload: `uploadFile` of web/src/lib/uppy-connectrpc-uploader.ts; Web.Upload.Uppy: what it tells
--     Uppy, and `upload` over several files.
--   * Web.Jwks: web/src/lib/server-jwt.ts, the cache of public keys and the validation of a token.
--   * Web.Gate: web/src/proxy.ts with web/src/lib/jwt-utils.ts, the middleware. It takes the validation,
--     and sets and clears the cookies of Web.Cookies (web/src/lib/auth-cookie.ts). Web.Shared: the
--     `refreshTokens` of the same file, whose requests come and are answered in any order, with the retries
--     of its callers.
--   * Web.Actions: web/src/actions/auth.ts behind the check of web/src/lib/csrf.ts.
--   * Web.Move: dnd-types.ts and use-item-move-monitor.ts of web/src/modules/files/dnd, and
--     `useMoveItems` of web/src/modules/files/api/use-files.ts; Web.Move.Drag: use-draggable-item.ts and
--     use-drop-target.ts.
--   * Web.Forward: web/src/lib/create-rpc-proxy.ts, which requests reach the services and how.
--   * Web.Thumbnail: the route of web/src/app/api/thumbnails/[fileId]/route.ts.
--   * Web.Batches: the query of `useThumbnailUrls` of both apps' modules/files/api/use-files.ts, with the
--     ids that it asks for in Web.Batches.Ids.
--   * Web.Grid: web/src/modules/files/views/file-view.tsx, the grid and what is done to a selection; it
--     shares the payloads of Web.Move. Web.Trash: deleted-files-view.tsx of
--     web/src/modules/files/components.
--   * Web.Edit: web/src/modules/files/views/file-edit-view.tsx, the page around Web.Save. A run of
--     `handleSave` is cut at its awaits, and runs overlap; its `try` as a whole is in Web.Edit.Request.
--     Web.Edit.Surface: the answers of the page's two queries, and when they mount an editor anew.
--   * Web.Names: the dialogs rename-file-dialog.tsx and create-folder-dialog.tsx of
--     web/src/modules/files/components. Web.Downloads: web/src/modules/files/api/use-download.ts.
--   * Web.Queue: web/src/modules/files/hooks/use-uppy-file-upload.ts, and what upload-drawer.tsx of
--     web/src/modules/files/components shows of it.
--   * Web.Preview: file-preview-drawer.tsx there, with web/src/modules/files/api/use-content-url.ts.
--     Web.Crumbs: the path of folders of file-view.tsx.
--   * Web.UrlPreview: url-preview.tsx there, the preview that the URL names. Web.Probe:
--     document-preview-shell.tsx there, the request that tests a document's link for its viewer.
--     Web.History: what the handlers of the preview and of the edit page do to the history of a tab.
--   * Web.Capture: web/src/lib/capture-blob-download.ts, by which an export is caught for Web.Save. Functions
--     of the page are values, and calls overlap.
--   * Web.Scroll: infinite-scroll-sentinel.tsx there, over the pages of a folder.
--   * Web.Keys: the query keys of use-files.ts and of its neighbours, and what each mutation invalidates.
--   * Web.Sidebar: the menu of web/src/modules/dashboard/components/dashboard-sidebar.tsx, and the page
--     web/src/app/(dashboard)/files/page.tsx. Web.RelativeTime: `formatRelativeTime` of
--     web/src/lib/utils.ts. Web.PdfCache: web/src/lib/pdf-thumbnail-utils.ts, its caches of promises.
--     Web.Home: web/src/modules/home/views/home-view.tsx. Web.Profile: web/src/lib/auth-context.tsx, and the
--     initials of user-button.tsx and file-header.tsx.
--   * Web.SignForms: sign-in-form.tsx and sign-up-form.tsx of web/src/modules/auth/components.
--
-- Tests holds runs of the definitions on concrete inputs.
--
-- Loops: the loops of `splitBlocks`, over chunks, and over batches run on as many rounds as there are
-- bytes or ids and one more, which a positive step does not exceed; the loop of `uploadBlockWithRetry`
-- on its three attempts. The rounds that are left are an argument, and `none` is a loop that ran out of
-- them. Native.Queries loads as many pages as it is told to, at most.
--
-- Numbers are natural: sizes, times in milliseconds, and waits in thousandths of a millisecond. Where the
-- source subtracts a skew from an expiry, the skew is added on the other side. A difference of two times
-- is zero where the clock went back.
--
-- Not modelled: the services, which are other programs; third-party packages (the RPC runtime, the
-- keychain, jose, the query cache, Uppy), which are arguments; generated code and components that were
-- copied from registries; and what views draw.
pub mod Prelude
pub mod Exec
pub mod Dict
pub mod Rpc
pub mod Text
pub mod Item
pub mod QueryKey
pub mod Paging
pub mod Native
pub mod Web
pub mod Tests
